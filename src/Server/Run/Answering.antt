-- ===== src/Server/Run/Answering.antt =====
-- A request that has been received whole is answered: runRecvAndSolve with solveRequest.
use ok.Base.{Bool, some, ◌≡◌, ◌≢◌, ◌⊎◌}
use ok.Result.{Result, done, thrown, failed}
use ok.Request.{Request, complete}
use ok.Server.Site.{Site}
use ok.Server.Solve.Responds.{HasAnswer}

-- The request that is being read is still in a phase of reading.
abbrev pub IsWaiting : Site → Type 0
IsWaiting site = (r : Request) × (site.connection.request ≡ some r) × (r.phase ≢ complete)

-- It waits for more, or there is an answer.
abbrev pub IsServed : Site × Result Bool → Type 0
IsServed (site, done x) = IsWaiting site ⊎ HasAnswer site
IsServed (site, thrown n) = ⊥
IsServed (site, failed f) = ⊥
