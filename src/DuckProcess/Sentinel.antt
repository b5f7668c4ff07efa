-- ===== src/DuckProcess/Sentinel.antt =====
-- The sentinel protocol: what each call reads back is the answer to its own statement.
use rss_lance.Base.{
  String, List, [], ◌∷◌, ◌++◌, true, false, Option, none, some, ◌≡◌, refl, ap, ◌∙◌,
}
use rss_lance.DuckProcess.{
  Row, Engine, DuckProcess, Answer, rows, with_sentinel, terminated, is_sentinel_result,
  skip_sentinel, read_result, send_and_read,
}
use rss_lance.DuckProcess.Lifecycle.{drop_rows, query, exec_stmt, first_try}
use rss_lance.DuckProcess.Calls.{Call, asking, executing, call, calls}

-- What DuckDB and its pipes do while they work. `run` is what the database makes of a statement: the
-- rows it prints, or `none` where it fails, and the database behind it. The channel delivers what was
-- printed in the order it was printed, the sentinel row behind each statement.
pub record InOrder (e : Engine) : Type 1 where
  pub Database : Type 0
  pub database : e.World → Database
  pub channel : e.World → List (List Row)
  pub run : String → Database → Option (List Row) × Database
  pub own_rows :
      (sql : String) (db : Database) (result : List Row)
      → (run sql db).0 ≡ some result
      → is_sentinel_result result ≡ false
  pub sentinel : List Row
  pub sentinel_row : is_sentinel_result sentinel ≡ true
  pub sent : (sql : String) (w : e.World) → (e.send (with_sentinel sql) w).0 ≡ true
  pub ran :
      (sql : String) (w : e.World)
      → database (e.send (with_sentinel sql) w).1 ≡ (run sql (database w)).1
  pub printed :
      (sql : String) (w : e.World) (result : List Row)
      → (run sql (database w)).0 ≡ some result
      → channel (e.send (with_sentinel sql) w).1 ≡ channel w ++ result ∷ sentinel ∷ []
  pub printed_failed :
      (sql : String) (w : e.World)
      → (run sql (database w)).0 ≡ none
      → channel (e.send (with_sentinel sql) w).1 ≡ channel w ++ sentinel ∷ []
  pub received :
      (w : e.World) (result : List Row) (more : List (List Row))
      → channel w ≡ result ∷ more
      → (e.receive w).0 ≡ some result
  pub taken :
      (w : e.World) (result : List Row) (more : List (List Row))
      → channel w ≡ result ∷ more
      → channel (e.receive w).1 ≡ more
  pub kept : (w : e.World) → database (e.receive w).1 ≡ database w

-- The rows of a statement that may have failed.
own : Option (List Row) → List Row
own none = []
own (some result) = result

module _ {e : Engine} (o : InOrder e) where
  -- The answers the database gives to the calls, asked one after the other.
  pub answers : List Call → o.Database → List Answer
  answers [] db = []
  answers (asking sql ∷ cs) db =
      let (r, db') = o.run (terminated (e.trim_space sql)) db in rows (own r) ∷ answers cs db'
  answers (executing sql ∷ cs) db =
      let (r, db') = o.run (terminated (e.trim_space sql)) db in rows [] ∷ answers cs db'

  -- A live process with an empty channel.
  pub record InSync (d : DuckProcess e) : Type 0 where
    pub alive : d.alive ≡ true
    pub going : d.stopped_for_upgrade ≡ false
    pub empty : o.channel d.world ≡ []

  read_result_sentinel :
      (p : Option (List Row) × e.World) (d : DuckProcess e)
      → p.0 ≡ some o.sentinel
      → read_result p d ≡ (some [], record d { world = p.1 })
  unfolding read_result
  read_result_sentinel (none, w) d h = cc
  read_result_sentinel (some r, w) d h =
      let q : is_sentinel_result r ≡ true = cc o.sentinel_row in rw q

  skip_sentinel_lem :
      (p : Option (List Row) × e.World) (d : DuckProcess e) (result : List Row)
      → p.0 ≡ some result
      → skip_sentinel p d ≡ record d { world = p.1 }
  unfolding skip_sentinel
  skip_sentinel_lem (none, w) d result h = cc
  skip_sentinel_lem (some r, w) d result h = refl

  read_result_rows :
      (p : Option (List Row) × e.World) (d : DuckProcess e) (result next : List Row)
      → p.0 ≡ some result
      → is_sentinel_result result ≡ false
      → (e.receive p.1).0 ≡ some next
      → read_result p d ≡ (some result, record d { world = (e.receive p.1).1 })
  unfolding read_result
  read_result_rows (none, w) d result next h q g = cc
  read_result_rows (some r, w) d result next h q g =
      let same : r ≡ result = cc in
      let q' : is_sentinel_result r ≡ false = cc in
      rw (q', skip_sentinel_lem (e.receive w) (record d { world = w }) next g, same)

  send_and_read-sent :
      (sql : String) (d : DuckProcess e)
      → send_and_read sql d
        ≡ read_result
            (e.receive (e.send (with_sentinel (terminated (e.trim_space sql))) d.world).1)
            d
  unfolding send_and_read
  send_and_read-sent sql d = rw (o.sent (terminated (e.trim_space sql)) d.world)

  -- One exchange, with the state it leaves.
  record Exchanged (sql : String) (d : DuckProcess e) : Type 0 where
    world : e.World
    reads : send_and_read sql d ≡ (
      some (own (o.run (terminated (e.trim_space sql)) (o.database d.world)).0),
      record d { world = world },
    )
    empty : o.channel world ≡ []
    next : o.database world ≡ (o.run (terminated (e.trim_space sql)) (o.database d.world)).1

  exchange : (sql : String) (d : DuckProcess e) → o.channel d.world ≡ [] → Exchanged sql d
  unfolding own
  exchange sql d h = go (o.run stmt (o.database d.world)).0 refl
    where
      stmt : String
      stmt = terminated (e.trim_space sql)

      w0 : e.World
      w0 = (e.send (with_sentinel stmt) d.world).1

      go : (r : Option (List Row)) → (o.run stmt (o.database d.world)).0 ≡ r → Exchanged sql d
      go none eq = record {
        world = (e.receive w0).1;
        reads =
            send_and_read-sent sql d
            ∙ read_result_sentinel (e.receive w0) d
                (o.received w0 o.sentinel [] (o.printed_failed stmt d.world eq ∙ rw h))
            ∙ rw eq;
        empty = o.taken w0 o.sentinel [] (o.printed_failed stmt d.world eq ∙ rw h);
        next = o.kept w0 ∙ o.ran stmt d.world;
      }
      go (some result) eq = record {
        world = (e.receive (e.receive w0).1).1;
        reads =
            send_and_read-sent sql d
            ∙ read_result_rows (e.receive w0) d result o.sentinel
                (o.received w0 result (o.sentinel ∷ []) (o.printed stmt d.world result eq ∙ rw h))
                (o.own_rows stmt (o.database d.world) result eq)
                (o.received (e.receive w0).1 o.sentinel []
                  (o.taken w0 result (o.sentinel ∷ []) (o.printed stmt d.world result eq ∙ rw h)))
            ∙ rw eq;
        empty =
            o.taken (e.receive w0).1 o.sentinel []
              (o.taken w0 result (o.sentinel ∷ []) (o.printed stmt d.world result eq ∙ rw h));
        next = o.kept (e.receive w0).1 ∙ o.kept w0 ∙ o.ran stmt d.world;
      }

  query-first :
      (attach sql : String) (d : DuckProcess e)
      → InSync d
      → query attach sql d ≡ first_try attach sql (send_and_read sql d)
  unfolding query
  query-first attach sql d h = simp (h.going, h.alive)

  query-sync :
      (attach sql : String) (d : DuckProcess e)
      → InSync d
      → (x : Exchanged sql d)
      → query attach sql d ≡ (
        rows (own (o.run (terminated (e.trim_space sql)) (o.database d.world)).0),
        record d { world = x.world },
      )
  unfolding first_try
  query-sync attach sql d h x = query-first attach sql d h ∙ ap (first_try attach sql) x.reads

  exec_stmt-sync :
      (attach sql : String) (d : DuckProcess e)
      → InSync d
      → (x : Exchanged sql d) → exec_stmt attach sql d ≡ (rows [], record d { world = x.world })
  unfolding exec_stmt drop_rows
  exec_stmt-sync attach sql d h x = ap (λ r. (drop_rows r.0, r.1)) (query-sync attach sql d h x)

  -- From a live process with an empty channel, the calls get what the database answers to them, each its
  -- own rows, also behind statements that fail and print nothing, and the process is again live with an
  -- empty channel.
  pub calls-answers :
      (attach : String) (cs : List Call) (d : DuckProcess e)
      → InSync d
      → ((calls attach cs d).0 ≡ answers cs (o.database d.world)) × InSync (calls attach cs d).1
  unfolding calls call answers
  calls-answers attach [] d h = (refl, h)
  calls-answers attach (asking sql ∷ cs) d h =
      let x = exchange sql d h.empty in
      let ih =
        calls-answers attach cs (record d { world = x.world })
          (record { alive = h.alive; going = h.going; empty = x.empty }) in
      (rw (query-sync attach sql d h x, ih.0, x.next), rw (query-sync attach sql d h x) ih.1)
  calls-answers attach (executing sql ∷ cs) d h =
      let x = exchange sql d h.empty in
      let ih =
        calls-answers attach cs (record d { world = x.world })
          (record { alive = h.alive; going = h.going; empty = x.empty }) in
      (
        rw (exec_stmt-sync attach sql d h x, ih.0, x.next),
        rw (exec_stmt-sync attach sql d h x) ih.1,
      )
