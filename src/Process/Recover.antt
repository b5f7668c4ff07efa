-- ===== src/Process/Recover.antt =====
-- One crash of the sidecar does not lose a command.
use rss_lance.Base.{true, some, ◌≡◌}
use rss_lance.Process.{Sidecar, Process, Response, Reply, check}

-- A process that is started again gets ready, and answers its first command.
pub record Restartable (os : Sidecar) : Type 0 where
  pub launches : (world : os.World) → (os.launch world).0 ≡ true
  pub gets_ready : (world : os.World) → (os.ready (os.launch world).1).0 ≡ true
  pub answers :
      (cmd : os.Line) (world : os.World)
      → (r : Response) × ((os.exchange cmd (os.ready (os.launch world).1).1).0 ≡ some r)

-- The command came back with what the sidecar said to it in the last exchange, an answer or an error of
-- the application, from a live process.
pub record CameBack {os : Sidecar} (cmd : os.Line) (sent : Reply × Process os) : Type 0 where
  pub heard_in : os.World
  pub response : Response
  pub said : (os.exchange cmd heard_in).0 ≡ some response
  pub returned : sent.0 ≡ check response
  pub is_last : sent.1.world ≡ (os.exchange cmd heard_in).1
  pub is_alive : sent.1.alive ≡ true
