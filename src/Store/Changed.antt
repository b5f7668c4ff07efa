-- ===== src/Store/Changed.antt =====
-- What the store shows of the articles after one change of an article.
use mathlib.Core.Option
use rss_lance.Base.{
  ℕ, String, List, [], ◌∷◌, Bool, true, false, Option, none, some, ◌≡◌, refl, ap, ◌∙◌, arith,
  eq_iff, ◌=str◌, if◌then◌else◌, map,
}
use rss_lance.Base.Assoc.{lookup}
use rss_lance.Types.{Article, Override}
use rss_lance.WriteCache.{WriteCache, set_read, set_starred, overlaid, overlay}
use rss_lance.WriteCache.Overlay.{overlaid-set_read, overlaid-set_starred}
use rss_lance.Offline.{OfflineCache}
use rss_lance.Offline.Pending.{add_pending_change, update_cached_article}
use rss_lance.Offline.Reads.{find_article}
use rss_lance.Writer.{Lance}
use rss_lance.Store.{Store, is_offline}
use rss_lance.Store.Articles.{view, buffer_change, set_article_read, set_article_starred}

-- The changes that the user makes of an article.
pub data Change : Type 0 where
  read unread star unstar : Change

abbrev pub changed : Change → Article → Article
changed read a = record a { is_read = true }
changed unread a = record a { is_read = false }
changed star a = record a { is_starred = true }
changed unstar a = record a { is_starred = false }

id-overlay : (o : Option Override) (a : Article) → (overlay o a).article_id ≡ a.article_id
unfolding overlay
id-overlay none a = refl
id-overlay (some ov) a = refl

id-overlaid : (c : WriteCache) (a : Article) → (overlaid c a).article_id ≡ a.article_id
unfolding overlaid
id-overlaid c a = id-overlay (lookup a.article_id c.pending) a

first_or :
    (h : Article → Article) (b : Bool) (x y : Article) (m n : Option Article)
    → (b ≡ true → x ≡ h y)
    → m ≡ Option.map h n
    → (if b then some x else m) ≡ Option.map h (if b then some y else n)
first_or h true x y m n e rest = ap some (e refl)
first_or h false x y m n e rest = rest

same_test : (id x y : String) → (x =str y) ≡ true → (id =str x) ≡ (id =str y)
same_test id x y h = ap (λ z. id =str z) ((eq_iff x y).0 h)

pub unchanged :
    (b : Bool) (g : Article → Article) (o : Option Article)
    → b ≡ false
    → Option.map (λ a. if b then g a else a) o ≡ o
unchanged true g o h = cc
unchanged false g none h = refl
unchanged false g (some a) h = refl

find_article-map :
    (id : String) (f g h : Article → Article) (rows : List Article)
    → ((a : Article) → (f a).article_id ≡ a.article_id)
    → ((a : Article) → (g a).article_id ≡ a.article_id)
    → ((a : Article) → (a.article_id =str id) ≡ true → f a ≡ h (g a))
    → find_article id (map f rows) ≡ Option.map h (find_article id (map g rows))
unfolding find_article
find_article-map id f g h [] p q e = refl
find_article-map id f g h (a ∷ rows) p q e =
    simp (p a, q a)
      (first_or h (a.article_id =str id) (f a) (g a) (find_article id (map f rows))
        (find_article id (map g rows)) (e a) (find_article-map id f g h rows p q e))

module _ (duck : ℕ → Bool) (now : ℕ) where
  offline-update_cached_article :
      (id : String) (r s : Option Bool) (oc : OfflineCache)
      → (update_cached_article duck id r s now oc).1.is_offline ≡ oc.is_offline
  unfolding update_cached_article
  offline-update_cached_article id none none oc = refl
  offline-update_cached_article id none (some b) oc = ground arith
  offline-update_cached_article id (some b) s oc = ground arith

  offline-add_pending_change :
      (id action : String) (oc : OfflineCache)
      → (add_pending_change duck id action "" now oc).1.is_offline ≡ oc.is_offline
  unfolding add_pending_change
  offline-add_pending_change id action oc = ground arith

module _ {lance : Lance} (duck : ℕ → Bool) (now : ℕ) where
  -- What the store does for a change.
  unfoldable pub change_article : Change → String → Store lance → Store lance
  change_article read id s = set_article_read duck now id true s
  change_article unread id s = set_article_read duck now id false s
  change_article star id s = set_article_starred duck now id true s
  change_article unstar id s = set_article_starred duck now id false s

  offline-buffer_change :
      (id action : String) (r b : Option Bool) (s : Store lance) (c : WriteCache)
      (off : Option OfflineCache)
      → is_offline (record s {
        cache = c;
        off_cache =
            buffer_change duck id action now
              (λ oc. (update_cached_article duck id r b now oc).1)
              off;
      })
        ≡ is_offline (record s { off_cache = off })
  unfolding is_offline buffer_change
  offline-buffer_change id action r b s c none = refl
  offline-buffer_change id action r b s c (some oc) =
      offline-update_cached_article duck now id r b (add_pending_change duck id action "" now oc).1
      ∙ offline-add_pending_change duck now id action oc

  pub still_online :
      (c : Change) (id : String) (s : Store lance)
      → is_offline s ≡ false
      → is_offline (change_article c id s) ≡ false
  unfolding change_article set_article_read set_article_starred
  still_online read id s h =
      offline-buffer_change id "read" (some true) none s (set_read id true s.cache) s.off_cache ∙ h
  still_online unread id s h =
      offline-buffer_change id "unread" (some false) none s (set_read id false s.cache) s.off_cache
      ∙ h
  still_online star id s h =
      offline-buffer_change id "star" none (some true) s (set_starred id true s.cache) s.off_cache
      ∙ h
  still_online unstar id s h =
      offline-buffer_change id "unstar" none (some false) s (set_starred id false s.cache)
        s.off_cache
      ∙ h

  pub found_changed :
      (c : Change) (id other : String) (s : Store lance)
      → find_article other (view (change_article c id s))
        ≡ Option.map (λ a. if id =str other then changed c a else a) (find_article other (view s))
  unfolding change_article set_article_read set_article_starred view
  found_changed read id other s =
      find_article-map other _ _ _ (lance.articles s.db) (id-overlaid (set_read id true s.cache))
        (id-overlaid s.cache)
        (λ a h. overlaid-set_read id true s.cache a ∙ rw (same_test id a.article_id other h))
  found_changed unread id other s =
      find_article-map other _ _ _ (lance.articles s.db) (id-overlaid (set_read id false s.cache))
        (id-overlaid s.cache)
        (λ a h. overlaid-set_read id false s.cache a ∙ rw (same_test id a.article_id other h))
  found_changed star id other s =
      find_article-map other _ _ _ (lance.articles s.db) (id-overlaid (set_starred id true s.cache))
        (id-overlaid s.cache)
        (λ a h. overlaid-set_starred id true s.cache a ∙ rw (same_test id a.article_id other h))
  found_changed unstar id other s =
      find_article-map other _ _ _ (lance.articles s.db)
        (id-overlaid (set_starred id false s.cache)) (id-overlaid s.cache)
        (λ a h. overlaid-set_starred id false s.cache a ∙ rw (same_test id a.article_id other h))
