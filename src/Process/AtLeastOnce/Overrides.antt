-- ===== src/Process/AtLeastOnce/Overrides.antt =====
-- The overrides that are sent, and what a successful `FlushOverrides` has done with them.
use rss_lance.Base.{
  ℕ, String, List, [], ◌∷◌, Bool, true, false, Option, none, some, ◌≡◌, refl, sym, ◌∙◌, ◌≢◌, ◌=str◌,
  eq_iff, subst, if◌then◌else◌, map, Bool-cases, inl, inr,
}
use rss_lance.Base.Assoc.{Assoc, lookup, IsMap}
use rss_lance.Types.{Article, Override}
use rss_lance.Writer.{Lance, payload, payload_of}
use rss_lance.Writer.Groups.{flush_one, map_self, map-ext}
use rss_lance.Process.{Process}
use rss_lance.Process.Commands.{Command, Lines, Outside}
use rss_lance.Process.Writes.{sets_something, to_send, send, send_overrides, flush_overrides}
use rss_lance.Process.AtLeastOnce.{flushed}
use rss_lance.Process.AtLeastOnce.Delivered.{os, db_of, send_cmd-Told}

lookup-to_send :
    (id : String) (m : Assoc Override) → lookup id m ≡ none → lookup id (to_send m) ≡ none
unfolding lookup to_send
lookup-to_send id [] h = refl
lookup-to_send id ((j, ov) ∷ m) h = elim (Bool-cases (j =str id)) [
  | inl same ↦ absurd (some_is_not (rw same at h))
  | inr other ↦
      sent_if (sets_something ov.is_read ov.is_starred) j id ov (to_send m) other
        (lookup-to_send id m (rw other at h))
]
  where
    some_is_not : {v : Override} → ◌≢◌ {A = Option Override} (some v) none
    some_is_not e = cc

    sent_if :
        (b : Bool) (j id : String) (ov : Override) (rest : Assoc Override)
        → (j =str id) ≡ false
        → lookup id rest ≡ none
        → lookup id (if b then (j, ov) ∷ rest else rest) ≡ none
    sent_if true j id ov rest other h = rw other h
    sent_if false j id ov rest other h = h

to_send-IsMap : (m : Assoc Override) → IsMap m → IsMap (to_send m)
unfolding to_send
to_send-IsMap [] d = tt
to_send-IsMap ((j, ov) ∷ m) d =
    kept (sets_something ov.is_read ov.is_starred) (to_send m) (lookup-to_send j m d.0)
      (to_send-IsMap m d.1)
  where
    kept :
        (b : Bool) (rest : Assoc Override)
        → lookup j rest ≡ none
        → IsMap rest
        → IsMap (if b then (j, ov) ∷ rest else rest)
    kept true rest h d = (h, d)
    kept false rest h d = d

-- An override that sets nothing does nothing.
sets_nothing : (r s : Option Bool) (t : ℕ) → sets_something r s ≡ false → payload_of r s t ≡ none
unfolding payload_of
sets_nothing none none t h = refl
sets_nothing none (some b) t h = cc
sets_nothing (some b) s t h = cc

flush_one-to_send :
    (m : Assoc Override) (id : String) (t : ℕ) (a : Article)
    → IsMap m
    → flush_one (lookup id (to_send m)) t a ≡ flush_one (lookup id m) t a
unfolding to_send lookup payload
flush_one-to_send [] id t a d = refl
flush_one-to_send ((j, ov) ∷ m) id t a d =
    elim (Bool-cases (sets_something ov.is_read ov.is_starred)) [
      | inl sent ↦ elim (Bool-cases (j =str id)) [
        | inl same ↦ rw (sent, same) refl
        | inr other ↦ rw (sent, other) (flush_one-to_send m id t a d.1)
      ]
      | inr empty ↦ elim (Bool-cases (j =str id)) [
        | inl same ↦
            let gone : lookup id (to_send m) ≡ none =
              lookup-to_send id m (subst (λ i. lookup i m ≡ none) ((eq_iff j id).0 same) d.0) in
            rw (empty, same, gone, sets_nothing ov.is_read ov.is_starred t empty) refl
        | inr other ↦ rw (empty, other) (flush_one-to_send m id t a d.1)
      ]
    ]

module _ (lance : Lance) (other : Command → lance.Db → Bool × lance.Db) (log_exists : Bool)
    (lines : Lines) (outside : Outside) where
  abbrev pub PythonProcess : Type 0
  PythonProcess = Process (os lance other log_exists lines outside)

  abbrev articles_of : PythonProcess → List Article
  articles_of w = lance.articles (db_of lance other log_exists lines outside w)

  send_overrides-flushed :
      (m : Assoc Override) (w : PythonProcess)
      → IsMap m
      → (send_overrides lines.encode m w).0 ≡ true
      → (t : ℕ) × (articles_of (send_overrides lines.encode m w).1
          ≡ map (flushed m t) (articles_of w))
  unfolding send_overrides send lookup
  send_overrides-flushed [] w d fine =
      (0, sym (map_self (flushed [] 0) (articles_of w) (λ a. refl)))
  send_overrides-flushed (o ∷ rest) w d fine =
      (send_cmd-Told lance other log_exists lines outside (o ∷ rest) d
          (db_of lance other log_exists lines outside w) w (λ t. refl)).1
        fine

  -- A `FlushOverrides` through the sidecar that returns no error has given each article that has an
  -- override the columns of its own override, and changed no other article: whether the process died
  -- before it, with the command unread, or with the answer unsent after all or a part of the updates,
  -- and was started again and sent the command once more.
  pub flush_overrides-flushed :
      (overrides : Assoc Override) (w : PythonProcess)
      → IsMap overrides
      → (flush_overrides lines.encode overrides w).0 ≡ true
      → (t : ℕ) × (articles_of (flush_overrides lines.encode overrides w).1
          ≡ map (λ a. flush_one (lookup a.article_id overrides) t a) (articles_of w))
  unfolding flush_overrides
  flush_overrides-flushed overrides w d fine =
      let (t, done) =
        send_overrides-flushed (to_send overrides) w (to_send-IsMap overrides d) fine in
      (
        t,
        done
            ∙ map-ext (flushed (to_send overrides) t) (flushed overrides t) (articles_of w)
                (λ a. flush_one-to_send overrides a.article_id t a d),
      )
