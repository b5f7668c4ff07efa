-- ===== src/DuckProcess/Calls.antt =====
-- The calls of the store on the DuckDB process, one after the other.
use rss_lance.Base.{String, List, [], ◌∷◌}
use rss_lance.DuckProcess.{Engine, DuckProcess, Answer}
use rss_lance.DuckProcess.Lifecycle.{query, exec_stmt}

-- What the store asks of the process.
pub data Call : Type 0 where
  asking executing : String → Call

module _ {e : Engine} (attach : String) where
  unfoldable pub call : Call → DuckProcess e → Answer × DuckProcess e
  call (asking sql) d = query attach sql d
  call (executing sql) d = exec_stmt attach sql d

  -- The answers to calls, and the state behind them.
  unfoldable pub calls : List Call → DuckProcess e → List Answer × DuckProcess e
  unfolding call
  calls [] d = ([], d)
  calls (c ∷ cs) d =
      let (answer, d') = call c d in let (answers, d'') = calls cs d' in (answer ∷ answers, d'')
