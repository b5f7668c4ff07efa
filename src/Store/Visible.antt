-- ===== src/Store/Visible.antt =====
-- What the user sees of the articles, through changes and through flushes.
use rss_lance.Base.{
  ℕ, String, List, [], ◌∷◌, ◌++◌, Bool, true, false, Option, none, some, ◌≡◌, refl, sym, subst, ◌∙◌,
  arith, if◌then◌else◌, map, All-map,
}
use rss_lance.Types.{PendingChange}
use rss_lance.WriteCache.{WriteCache, set_read, set_starred}
use rss_lance.Offline.{OfflineCache}
use rss_lance.Offline.Pending.{change_of, add_pending_change, update_cached_article}
use rss_lance.Writer.{Lance}
use rss_lance.Replay.{read, unread, star, unstar, action_of}
use rss_lance.Replay.Effect.{flags}
use rss_lance.Store.{Store}
use rss_lance.Store.Articles.{view, set_article_read, set_article_starred, buffer_change}
use rss_lance.Store.Linked.{Linked, LinkedAt-set_read, LinkedAt-set_starred}

-- The pending changes of a store.
abbrev pub pending_of : Option OfflineCache → List PendingChange
pending_of none = []
pending_of (some oc) = oc.pending_changes

pending-update_cached_article :
    (duck : ℕ → Bool) (id : String) (r s : Option Bool) (now : ℕ) (oc : OfflineCache)
    → (update_cached_article duck id r s now oc).1.pending_changes ≡ oc.pending_changes
unfolding update_cached_article
pending-update_cached_article duck id none none now oc = refl
pending-update_cached_article duck id none (some b) now oc = ground arith
pending-update_cached_article duck id (some b) s now oc = ground arith

pending-buffer_change :
    (duck : ℕ → Bool) (id action : String) (now : ℕ) (then_update : OfflineCache → OfflineCache)
    (oc : OfflineCache)
    → duck oc.calls ≡ true
    → ((x : OfflineCache) → (then_update x).pending_changes ≡ x.pending_changes)
    → pending_of (buffer_change duck id action now then_update (some oc))
      ≡ oc.pending_changes ++ change_of oc.next_id id action "" now ∷ []
unfolding buffer_change
pending-buffer_change duck id action now then_update oc ran keeps =
    keeps (add_pending_change duck id action "" now oc).1 ∙ unfold add_pending_change in rw ran

read_action : (b : Bool) → action_of (if b then "read" else "unread") ≡ (if b then read else unread)
unfolding action_of
read_action true = refl
read_action false = refl

star_action : (b : Bool) → action_of (if b then "star" else "unstar") ≡ (if b then star else unstar)
unfolding action_of
star_action true = refl
star_action false = refl

module _ {lance : Lance} where
  -- The store shows of each article in Lance what the pending changes will have made of it.
  abbrev pub IsLinked : Store lance → Type 0
  IsLinked s = Linked s.cache (pending_of s.off_cache) (lance.articles s.db)

  -- What the user sees of the articles.
  abbrev pub shown : Store lance → List (String × Bool × Bool)
  shown s = map flags (view s)

  -- A change of the read state, where the local cache records it.
  pub set_article_read-IsLinked :
      (duck : ℕ → Bool) (now : ℕ) (id : String) (b : Bool) (s : Store lance) (oc : OfflineCache)
      → s.off_cache ≡ some oc
      → duck oc.calls ≡ true
      → IsLinked s
      → IsLinked (set_article_read duck now id b s)
  unfolding set_article_read
  set_article_read-IsLinked duck now id b s oc e ran l =
      let rows = lance.articles s.db in
      let action = if b then "read" else "unread" in
      let change = change_of oc.next_id id action "" now in
      let f = λ (x : OfflineCache). (update_cached_article duck id (some b) none now x).1 in
      let before : Linked s.cache oc.pending_changes rows =
        subst (λ o. Linked s.cache (pending_of o) rows) e l in
      let pend =
        pending-buffer_change duck id action now f oc ran
          (λ x. pending-update_cached_article duck id (some b) none now x) in
      subst
        (λ o.
          Linked (set_read id b s.cache) (pending_of (buffer_change duck id action now f o)) rows)
        (sym e)
        (subst (λ cs. Linked (set_read id b s.cache) cs rows) (sym pend)
          (All-map rows
            (λ a la.
              LinkedAt-set_read oc.pending_changes change (if b then read else unread)
                (read_action b) s.cache a la b refl)
            before))

  -- A change of the star, where the local cache records it.
  set_article_starred-IsLinked :
      (duck : ℕ → Bool) (now : ℕ) (id : String) (b : Bool) (s : Store lance) (oc : OfflineCache)
      → s.off_cache ≡ some oc
      → duck oc.calls ≡ true
      → IsLinked s
      → IsLinked (set_article_starred duck now id b s)
  unfolding set_article_starred
  set_article_starred-IsLinked duck now id b s oc e ran l =
      let rows = lance.articles s.db in
      let action = if b then "star" else "unstar" in
      let change = change_of oc.next_id id action "" now in
      let f = λ (x : OfflineCache). (update_cached_article duck id none (some b) now x).1 in
      let before : Linked s.cache oc.pending_changes rows =
        subst (λ o. Linked s.cache (pending_of o) rows) e l in
      let pend =
        pending-buffer_change duck id action now f oc ran
          (λ x. pending-update_cached_article duck id none (some b) now x) in
      subst
        (λ o.
          Linked (set_starred id b s.cache) (pending_of (buffer_change duck id action now f o))
            rows)
        (sym e)
        (subst (λ cs. Linked (set_starred id b s.cache) cs rows) (sym pend)
          (All-map rows
            (λ a la.
              LinkedAt-set_starred oc.pending_changes change (if b then star else unstar)
                (star_action b) s.cache a la b refl)
            before))
