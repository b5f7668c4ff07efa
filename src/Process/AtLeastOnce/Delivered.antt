-- ===== src/Process/AtLeastOnce/Delivered.antt =====
-- `FlushOverrides` of server/db/lance_process.go through a sidecar that dies and is restarted.
use rss_lance.Base.{
  ℕ, [], ◌∷◌, Bool, true, false, Option, none, some, ◌≡◌, refl, sym, subst, ap, ◌∙◌, arith,
  if◌then◌else◌, map, Bool-cases, inl, inr, false≢true, ◌≢◌,
}
use rss_lance.Base.Assoc.{Assoc, IsMap}
use rss_lance.Types.{Override}
use rss_lance.Writer.{Lance}
use rss_lance.Writer
use rss_lance.Writer.Groups.{flush_overrides_lem}
use rss_lance.Process.{
  Sidecar, Process, Reply, Response, check, emit_log, kill, start, restart_locked, last_try, retry,
  first_try, send_cmd,
}
use rss_lance.Process.Commands.{
  Command, Lines, Outside, World, Fate, settle, dispatch, execute, cmd_flush_overrides,
  python_sidecar,
}
use rss_lance.Process.Writes.{no_error}
use rss_lance.Process.AtLeastOnce.{flushed, Same, flush_overrides-Same}

nothing : {r : Response} → ◌≢◌ {A = Option Response} none (some r)
nothing e = cc

said :
    {b : Bool} {r : Response}
    → some (record { ok = b; error = "" }) ≡ some r
    → r.ok ≡ true
    → b ≡ true
said {b} e fine = ap ok_of e ∙ fine
  where
    ok_of : Option Response → Bool
    ok_of none = b
    ok_of (some r) = r.ok

no_error-check : (r : Response) → no_error (check r) ≡ true → r.ok ≡ true
no_error-check r e = elim (Bool-cases r.ok) [
  | inl fine ↦ fine
  | inr bad ↦ absurd (false≢true (rw bad at e))
]

module _ (lance : Lance) (other : Command → lance.Db → Bool × lance.Db) (log_exists : Bool)
    (lines : Lines) (outside : Outside) where
  abbrev pub os : Sidecar
  os = python_sidecar lance other log_exists lines outside

  abbrev pub db_of : Process os → lance.Db
  db_of w = w.world.db

  start-db : (w : Process os) → db_of (start w).1 ≡ db_of w
  unfolding start kill
  start-db w = ground arith

  db_of_if :
      (alive started : Bool) (w w' : Process os)
      → db_of w' ≡ db_of w
      → db_of
          (if◌then◌else◌ {A = Bool × Process os} alive
            (true, w)
            (if started then (true, emit_log "info" w') else (false, emit_log "error" w'))).1
        ≡ db_of w
  db_of_if true started w w' h = refl
  db_of_if false true w w' h = h
  db_of_if false false w w' h = h

  restart_locked-db : (w : Process os) → db_of (restart_locked w).1 ≡ db_of w
  unfolding restart_locked kill
  restart_locked-db w =
      db_of_if w.alive (start (kill (emit_log "error" w))).0 w (start (kill (emit_log "error" w))).1
        (start-db (kill (emit_log "error" w)))

  module _ (m : Assoc Override) (d : IsMap m) (db0 : lance.Db) where
    -- All articles have what the overrides say, as of some time.
    abbrev Done : lance.Db → Type 0
    Done db = (t : ℕ) × (lance.articles db ≡ map (flushed m t) (lance.articles db0))

    abbrev Good : Bool → lance.Db → Type 0
    Good fine db = Same lance m db0 db × (fine ≡ true → Done db)

    cmd_twin :
        (overrides : Assoc Override) (now : ℕ) (db : lance.Db)
        → cmd_flush_overrides lance other log_exists overrides now db
          ≡ Writer.flush_overrides lance overrides now db
    unfolding cmd_flush_overrides Writer.flush_overrides
    cmd_twin [] now db = refl
    cmd_twin (o ∷ rest) now db = refl

    execute_once :
        (now : ℕ) (db : lance.Db)
        → Same lance m db0 db
        → let r = execute lance other log_exists (Command.flush_overrides m) now db in Good r.0 r.1
    unfolding execute
    execute_once now db same =
        subst (λ (r : Bool × lance.Db). Good r.0 r.1) (sym (cmd_twin m now db))
          (
            (λ t. flush_overrides-Same lance m now db d t ∙ same t),
            λ fine. (now, flush_overrides_lem lance m now db d fine ∙ same now),
          )

    -- What an exchange leaves.
    abbrev Tried : Option Response × World lance.Db → Type 0
    Tried x = Same lance m db0 x.1.db × ((r : Response) → x.0 ≡ some r → r.ok ≡ true → Done x.1.db)

    settle-Tried :
        (fate : Fate) (r : Bool × lance.Db) (w : World lance.Db)
        → Same lance m db0 w.db
        → Good r.0 r.1
        → Tried (settle fate r w)
    unfolding settle
    settle-Tried Fate.answered r w same good = (good.0, λ resp e fine. good.1 (said e fine))
    settle-Tried Fate.lost_command r w same good = (same, λ resp e fine. absurd (nothing e))
    settle-Tried Fate.lost_answer r w same good = (good.0, λ resp e fine. absurd (nothing e))

    abbrev line : lines.Line
    line = lines.encode (Command.flush_overrides m)

    exchange-Tried : (w : World lance.Db) → Same lance m db0 w.db → Tried (os.exchange line w)
    unfolding dispatch
    exchange-Tried w same = settle-Tried (outside.fate w.exchanges) _ w same (
        rw (lines.decode-encode (Command.flush_overrides m))
          (execute_once (outside.clock w.exchanges) w.db same))

    -- What a command leaves.
    abbrev Told : Reply × Process os → Type 0
    Told p = Same lance m db0 (db_of p.1) × (no_error p.0 ≡ true → Done (db_of p.1))

    check-Told :
        (r : Response) (w : Process os)
        → Same lance m db0 (db_of w)
        → (r.ok ≡ true → Done (db_of w))
        → Told (check r, w)
    check-Told r w same h = (same, λ e. h (no_error-check r e))

    last_try-Told :
        (x : Option Response × World lance.Db) (w : Process os) → Tried x → Told (last_try x w)
    last_try-Told (none, world) w h = (h.0, λ e. absurd (false≢true e))
    last_try-Told (some r, world) w h =
        check-Told r (record w { world = world }) h.0 (λ fine. h.1 r refl fine)

    Told-if :
        (b : Bool) (x y : Reply × Process os)
        → Told x
        → Told y
        → Told (if◌then◌else◌ {A = Reply × Process os} b x y)
    Told-if true x y h g = h
    Told-if false x y h g = g

    restarted : Process os → Process os
    restarted w = (restart_locked w).1

    restarted-Same :
        (w : Process os) → Same lance m db0 (db_of w) → Same lance m db0 (db_of (restarted w))
    unfolding restarted
    restarted-Same w same = subst (Same lance m db0) (sym (restart_locked-db w)) same

    retry-Told : (w : Process os) → Same lance m db0 (db_of w) → Told (retry line w)
    unfolding retry restarted
    retry-Told w same =
        let dead = record (emit_log "error" w) { alive = false } in
        let same' = restarted-Same dead same in
        Told-if (restart_locked dead).0 _ _
          (last_try-Told _ (restarted dead) (exchange-Tried (restarted dead).world same'))
          (same', λ e. absurd (false≢true e))

    first_try-Told :
        (x : Option Response × World lance.Db) (w : Process os)
        → Tried x
        → Told (first_try line x w)
    unfolding first_try
    first_try-Told (none, world) w h = retry-Told (record w { world = world }) h.0
    first_try-Told (some r, world) w h =
        check-Told r (record w { world = world }) h.0 (λ fine. h.1 r refl fine)

    pub send_cmd-Told : (w : Process os) → Same lance m db0 (db_of w) → Told (send_cmd line w)
    unfolding send_cmd restarted
    send_cmd-Told w same =
        let same' = restarted-Same w same in
        Told-if w.alive _ _ (first_try-Told _ w (exchange-Tried w.world same)) (
          Told-if (restart_locked w).0 _ _
            (first_try-Told _ (restarted w) (exchange-Tried (restarted w).world same'))
            (same', λ e. absurd (false≢true e)))
