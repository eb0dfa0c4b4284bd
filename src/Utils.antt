-- ===== src/Utils.antt =====
-- srcs/Utils/utils.cpp and utils.hpp, one module for each family of functions.
pub mod Net
pub mod Split
pub mod Replace
pub mod Number
pub mod Descriptors
