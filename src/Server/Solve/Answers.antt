-- ===== src/Server/Solve/Answers.antt =====
-- solveRequest leaves an answer, or throws.
use ok.Result.{Result}
use ok.Request.{Request}
use ok.Server.Site.{Site}
