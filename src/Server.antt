-- ===== src/Server.antt =====
-- The Server class of srcs/Server.hpp, a module for each part of its work.
pub mod Receive
pub mod Site
pub mod Answer
pub mod Execute
pub mod Solve
pub mod Arguments
pub mod Cgi
pub mod Run
pub mod Serve
pub mod Manager
