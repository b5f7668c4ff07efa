-- ===== src/Process/AtLeastOnce.antt =====
-- `FlushOverrides` through the sidecar: a command whose answer is lost is sent again, and may so be
-- carried out twice, or once in part and once more.
pub mod Delivered
pub mod Overrides
use rss_lance.Base.{
  ℕ, suc, String, List, [], ◌∷◌, Bool, true, false, not, Option, none, some, ◌≡◌, refl, sym, subst,
  ap, ◌∙◌, arith, eq_iff, ◌=str◌, if◌then◌else◌, map, All, Bool-cases, inl, inr, false≢true,
}
use rss_lance.Base.Assoc.{Assoc, lookup, IsMap}
use rss_lance.Types.{Article, Override}
use rss_lance.Offline.{contains}
use rss_lance.Writer.{
  Lance, ArticleUpdate, where_then, group_loop, payload, payload_of, same_override, flush_group,
  flush_groups, flush_overrides,
}
use rss_lance.Writer.Groups.{
  hits, value_or, hits-group_loop, same_override_sound, apply_payload, flush_article, flush_one,
  map-compose, map-ext, map_self, id-apply_payload, flush_overrides_lem,
}
use rss_lance.Process.{Sidecar, Process, Reply, Response}
use rss_lance.Process.Commands.{Command}

-- Each group's override is that of its ids.
abbrev Agrees : Assoc Override → List (Override × List String) → Type 0
Agrees m gs = All (λ g. (j : String) → contains j g.1 ≡ true → lookup j m ≡ some g.0) gs

hits-Agrees :
    (m : Assoc Override) (gs : List (Override × List String))
    → ((j : String) → All (λ ov. lookup j m ≡ some ov) (hits j gs))
    → Agrees m gs
hits-Agrees m [] h = tt
hits-Agrees m ((ov, ids) ∷ gs) h = (
  λ j e. (rw e at (h j)).0,
  hits-Agrees m gs (λ j. elim (Bool-cases (contains j ids)) [
    | inl e ↦ (rw e at (h j)).1
    | inr e ↦ rw e at (h j)
  ]),
)

All-value_or : (o : Option Override) → All (λ ov. o ≡ some ov) (value_or o [])
All-value_or none = tt
All-value_or (some ov) = (refl, tt)

groups-Agrees : (m : Assoc Override) → IsMap m → Agrees m (group_loop same_override [] m)
groups-Agrees m d = hits-Agrees m _ (λ j.
    subst (All (λ ov. lookup j m ≡ some ov))
      (sym (hits-group_loop same_override same_override_sound j [] m d (λ k q. refl)))
      (All-value_or (lookup j m)))

-- An update is no longer seen behind a later one with the same columns.
payload_again :
    (r s : Option Bool) (t t' : ℕ) (a : Article)
    → apply_payload (payload_of r s t) (apply_payload (payload_of r s t') a)
      ≡ apply_payload (payload_of r s t) a
unfolding payload_of
payload_again none none t t' a = refl
payload_again none (some s) t t' a = refl
payload_again (some r) none t t' a = refl
payload_again (some r) (some s) t t' a = refl

-- What the overrides are to do with an article.
abbrev pub flushed : Assoc Override → ℕ → Article → Article
flushed m t a = flush_one (lookup a.article_id m) t a

flushed_again :
    (m : Assoc Override) (ov : Override) (t t' : ℕ) (a : Article)
    → lookup a.article_id m ≡ some ov
    → flushed m t (flush_article ov t' a) ≡ flushed m t a
unfolding payload
flushed_again m ov t t' a e =
    rw (id-apply_payload (payload ov t') a, e) (payload_again ov.is_read ov.is_starred t t' a)

module _ (lance : Lance) (m : Assoc Override) where
  open lance use {Db, articles, update_articles, articles-update_articles}

  -- The flush of the second state gives what the flush of the first does.
  abbrev Same : Db → Db → Type 0
  Same db db' = (t : ℕ) → map (flushed m t) (articles db') ≡ map (flushed m t) (articles db)

  group_step :
      (ov : Override) (ids : List String) (t t' : ℕ) (rows : List Article)
      → ((j : String) → contains j ids ≡ true → lookup j m ≡ some ov)
      → map
          (flushed m t)
          (map (where_then (λ a. contains a.article_id ids) (apply_payload (payload ov t'))) rows)
        ≡ map (flushed m t) rows
  group_step ov ids t t' rows h =
      map-compose _ _ rows
      ∙ map-ext _ _ rows (λ a. elim (Bool-cases (contains a.article_id ids)) [
        | inl e ↦ rw e (flushed_again m ov t t' a (h a.article_id e))
        | inr e ↦ rw e refl
      ])

  Same-if :
      (ok : Bool) (p : Option ArticleUpdate) (f : Article → Article) (db db' : Db)
      → articles db' ≡ (if ok then map f (articles db) else articles db)
      → ((t : ℕ) → map (flushed m t) (map f (articles db)) ≡ map (flushed m t) (articles db))
      → Same db db'
  Same-if true p f db db' e h t = ap (map (flushed m t)) e ∙ h t
  Same-if false p f db db' e h t = ap (map (flushed m t)) e

  flush_group-Same :
      (ov : Override) (ids : List String) (t' : ℕ) (p : Option ArticleUpdate) (db : Db)
      → payload ov t' ≡ p
      → ((j : String) → contains j ids ≡ true → lookup j m ≡ some ov)
      → Same db (flush_group lance p ids db).1
  unfolding flush_group
  flush_group-Same ov ids t' none db e h = λ t. refl
  flush_group-Same ov ids t' (some u) db e h =
      Same-if (flush_group lance (some u) ids db).0 (some u) _ db
        (flush_group lance (some u) ids db).1 (articles-update_articles _ u db)
        (λ t.
          subst
            (λ q.
              map (flushed m t)
                (map (where_then (λ a. contains a.article_id ids) (apply_payload q)) (articles db))
              ≡ map (flushed m t) (articles db))
            e (group_step ov ids t t' (articles db) h))

  either-Same :
      (ok : Bool) (db db' : Db) (rest : Bool × Db)
      → Same db db'
      → Same db' rest.1
      → Same db (if◌then◌else◌ {A = Bool × Db} ok rest (false, db')).1
  either-Same true db db' rest h g t = g t ∙ h t
  either-Same false db db' rest h g t = h t

  flush_groups-Same :
      (gs : List (Override × List String)) (now : ℕ) (db : Db)
      → Agrees m gs
      → Same db (flush_groups lance gs now db).1
  unfolding flush_groups
  flush_groups-Same [] now db h = λ t. refl
  flush_groups-Same ((ov, ids) ∷ gs) now db h =
      let one = flush_group lance (payload ov now) ids db in
      either-Same one.0 db one.1 (flush_groups lance gs now one.1)
        (flush_group-Same ov ids now (payload ov now) db refl h.0)
        (flush_groups-Same gs now one.1 h.1)

  -- A flush, also one that ends early, is not seen behind a later one.
  pub flush_overrides-Same :
      (now : ℕ) (db : Db) → IsMap m → Same db (flush_overrides lance m now db).1
  unfolding flush_overrides
  flush_overrides-Same now db d =
      flush_groups-Same (group_loop same_override [] m) now db (groups-Agrees m d)
