-- ===== src/Writer/Groups.antt =====
-- The batched writes against writes one by one: every key is in one group, that of its value.
use rss_lance.Base.{
  ℕ, String, List, [], ◌∷◌, ◌++◌, Bool, true, false, Option, none, some, ◌≡◌, refl, ap, sym, ap₂,
  ◌∙◌, arith, eq_iff, eq_refl, ◌=str◌, if◌then◌else◌, map, false≢true, Bool-cases, inl, inr,
}
use rss_lance.Base.Assoc.{Assoc, lookup, IsMap}
use rss_lance.Types.{Article, Override}
use rss_lance.Offline.{contains}
use rss_lance.Writer.{
  Lance, ArticleUpdate, apply_update, where_then, add_to_group, group_loop, payload, same_override,
  flush_group, flush_groups, flush_overrides,
}

pub contains-append :
    (x : String) (ys : List String) (y : String)
    → contains x (ys ++ y ∷ []) ≡ (if y =str x then true else contains x ys)
unfolding contains
contains-append x [] y = refl
contains-append x (z ∷ ys) y = ground (arith, contains-append x ys y)

-- The values of the groups that a key is in.
abbrev pub hits : {K : Type 0} → String → List (K × List String) → List K
hits j [] = []
hits j ((k, ids) ∷ gs) = let rest = hits j gs in if contains j ids then k ∷ rest else rest

abbrev pub value_or : {K : Type 0} → Option K → List K → List K
value_or none ks = ks
value_or (some k) ks = k ∷ []

module _ {K : Type 0} (same : K → K → Bool) (sound : (a b : K) → same a b ≡ true → a ≡ b) where
  hits-add_ne :
      (j id : String) (k : K) (gs : List (K × List String))
      → (id =str j) ≡ false
      → hits j (add_to_group same k id gs) ≡ hits j gs
  unfolding add_to_group contains
  hits-add_ne j id k [] h = ground arith
  hits-add_ne j id k ((i, ids) ∷ gs) h =
      ground (arith, contains-append j ids id, hits-add_ne j id k gs h)

  hits-add_self :
      (id : String) (k : K) (gs : List (K × List String))
      → hits id gs ≡ []
      → hits id (add_to_group same k id gs) ≡ k ∷ []
  unfolding add_to_group contains
  hits-add_self id k [] h = rw eq_refl
  hits-add_self id k ((i, ids) ∷ gs) h =
      ground (arith, contains-append id ids id, eq_refl id, hits-add_self id k gs, sound i k)

  -- A key of the map is in one group, that of its value; any other key is where it was.
  pub hits-group_loop :
      (j : String) (gs : List (K × List String)) (m : Assoc K)
      → IsMap m
      → ((k : K) → lookup j m ≡ some k → hits j gs ≡ [])
      → hits j (group_loop same gs m) ≡ value_or (lookup j m) (hits j gs)
  unfolding group_loop lookup
  hits-group_loop j gs [] d h = refl
  hits-group_loop j gs ((id, k) ∷ m) d h = elim (Bool-cases (id =str j)) [
    | inl e ↦
        let eq : id ≡ j = (eq_iff id j).0 e in
        let gone : lookup j m ≡ none = rw (← eq) d.0 in
        let fresh : hits j gs ≡ [] = h k (rw e) in
        let one : hits j (add_to_group same k id gs) ≡ k ∷ [] =
          rw (← eq) (hits-add_self id k gs (rw eq fresh)) in
        rw e (
          hits-group_loop j (add_to_group same k id gs) m d.1 (λ v q. absurd (ground (arith, gone)))
          ∙ rw gone one)
    | inr ne ↦ rw ne (
        hits-group_loop j (add_to_group same k id gs) m d.1
          (λ v q. hits-add_ne j id k gs ne ∙ h v (rw ne q))
        ∙ ap (value_or (lookup j m)) (hits-add_ne j id k gs ne))
  ]

-- What `FlushOverrides` is to do with an article: its own override, by one update.
abbrev pub apply_payload : Option ArticleUpdate → Article → Article
apply_payload none a = a
apply_payload (some u) a = apply_update u a

abbrev pub flush_article : Override → ℕ → Article → Article
flush_article ov now a = apply_payload (payload ov now) a

abbrev pub flush_one : Option Override → ℕ → Article → Article
flush_one none now a = a
flush_one (some ov) now a = flush_article ov now a

abbrev flush_each : List Override → ℕ → Article → Article
flush_each [] now a = a
flush_each (ov ∷ ovs) now a = flush_each ovs now (flush_article ov now a)

pub id-apply_payload :
    (p : Option ArticleUpdate) (a : Article) → (apply_payload p a).article_id ≡ a.article_id
id-apply_payload none a = refl
id-apply_payload (some u) a = refl

pub same_override_sound : (a b : Override) → same_override a b ≡ true → a ≡ b
unfolding same_override
same_override_sound a b h = ground arith

pub map-compose :
    {A B C : Type 0} (f : A → B) (g : B → C) (xs : List A)
    → map g (map f xs) ≡ map (λ x. g (f x)) xs
map-compose f g [] = refl
map-compose f g (x ∷ xs) = ap (λ t. g (f x) ∷ t) (map-compose f g xs)

pub map-ext :
    {A B : Type 0} (f g : A → B) (xs : List A) → ((x : A) → f x ≡ g x) → map f xs ≡ map g xs
map-ext f g [] h = refl
map-ext f g (x ∷ xs) h = ap₂ ◌∷◌ (h x) (map-ext f g xs h)

pub map_self : {A : Type 0} (f : A → A) (xs : List A) → ((x : A) → f x ≡ x) → map f xs ≡ xs
map_self f [] h = refl
map_self f (x ∷ xs) h = ap₂ ◌∷◌ (h x) (map_self f xs h)

flush_each_lem :
    (ov : Override) (ids : List String) (gs : List (Override × List String)) (now : ℕ) (a : Article)
    → let b =
        where_then
          (λ (c : Article). contains c.article_id ids)
          (apply_payload (payload ov now))
          a in
      flush_each (hits b.article_id gs) now b
      ≡ flush_each (hits a.article_id ((ov, ids) ∷ gs)) now a
flush_each_lem ov ids gs now a = elim (Bool-cases (contains a.article_id ids)) [
  | inl e ↦ rw (e, id-apply_payload)
  | inr e ↦ rw e
]

flush_each-value_or :
    (o : Option Override) (now : ℕ) (a : Article)
    → flush_each (value_or o []) now a ≡ flush_one o now a
flush_each-value_or none now a = refl
flush_each-value_or (some ov) now a = refl

module _ (lance : Lance) where
  open lance use {Db, articles, update_articles, articles-update_articles}

  flush_group_lem :
      (p : Option ArticleUpdate) (ids : List String) (db : Db)
      → (flush_group lance p ids db).0 ≡ true
      → articles (flush_group lance p ids db).1
        ≡ map (where_then (λ a. contains a.article_id ids) (apply_payload p)) (articles db)
  unfolding flush_group
  flush_group_lem none ids db ok = sym (
      map_self (where_then (λ a. contains a.article_id ids) (λ a. a)) (articles db)
        (λ a. ground arith))
  flush_group_lem (some u) ids db ok = articles-update_articles _ u db ∙ rw ok

  flush_groups_lem :
      (gs : List (Override × List String)) (now : ℕ) (db : Db)
      → (flush_groups lance gs now db).0 ≡ true
      → articles (flush_groups lance gs now db).1
        ≡ map (λ a. flush_each (hits a.article_id gs) now a) (articles db)
  unfolding flush_groups
  flush_groups_lem [] now db ok = sym (map_self (λ a. a) (articles db) (λ a. refl))
  flush_groups_lem ((ov, ids) ∷ gs) now db ok =
      elim (Bool-cases (flush_group lance (payload ov now) ids db).0) [
        | inr e ↦ absurd (false≢true (rw e at ok))
        | inl e ↦
            let db' : Db = (flush_group lance (payload ov now) ids db).1 in
            let ok' : (flush_groups lance gs now db').0 ≡ true = rw e at ok in
            rw e (
              flush_groups_lem gs now db' ok'
              ∙ ap (map (λ a. flush_each (hits a.article_id gs) now a))
                  (flush_group_lem (payload ov now) ids db e)
              ∙ map-compose _ _ (articles db)
              ∙ map-ext _ _ (articles db) (λ a. flush_each_lem ov ids gs now a))
      ]

  -- `FlushOverrides` groups the overrides by payload and issues one update for each group. Where it
  -- returns no error, each article has had exactly one update if the map has an override for it that
  -- sets something, with the columns of its own override, and no other article has changed.
  pub flush_overrides_lem :
      (overrides : Assoc Override) (now : ℕ) (db : Db)
      → IsMap overrides
      → (flush_overrides lance overrides now db).0 ≡ true
      → articles (flush_overrides lance overrides now db).1
        ≡ map (λ a. flush_one (lookup a.article_id overrides) now a) (articles db)
  unfolding flush_overrides
  flush_overrides_lem overrides now db d ok =
      flush_groups_lem (group_loop same_override [] overrides) now db ok
      ∙ map-ext _ _ (articles db) (λ a.
        ap (λ h. flush_each h now a)
          (hits-group_loop same_override same_override_sound a.article_id [] overrides d
            (λ k q. refl))
        ∙ flush_each-value_or (lookup a.article_id overrides) now a)
