-- ===== src/Embedded/Twin/Flush.antt =====
-- The flush and the way back online in the two stores.
use rss_lance.Base.{ℕ, Bool, Option, none, some, ◌≡◌, refl, ap, ◌∙◌}
use rss_lance.WriteCache.{WriteCache}
use rss_lance.Offline.{OfflineCache}
use rss_lance.Writer.{Lance}
use rss_lance.Store.{Store}
use rss_lance.Store.Flush as Cli
use rss_lance.Store.Flush.{clear_if_some, flush_with, online}
use rss_lance.Embedded.{CgoStore}
use rss_lance.Embedded.Flush as Cgo
use rss_lance.Embedded.Flush.{cleared, flush_cached, back_online}
use rss_lance.Embedded.Twin.{as_cli}

cleared_twin : (count : Option ℕ) (c : WriteCache) → cleared count c ≡ clear_if_some count c
cleared_twin none c = refl
cleared_twin (some n) c = refl

back_online_twin : (o : Option OfflineCache) → back_online o ≡ online o
back_online_twin none = refl
back_online_twin (some oc) = refl

module _ {lance : Lance} (duck : ℕ → Bool) (now : ℕ) (s : CgoStore lance) where
  flush_cached_twin :
      (o : Option OfflineCache)
      → as_cli (flush_cached duck now o s) ≡ flush_with duck now o (as_cli s)
  unfolding flush_cached flush_with
  flush_cached_twin none = refl
  flush_cached_twin (some oc) = simp (cleared_twin)

  pub flush_twin :
      as_cli (Cgo.flush_pending_changes duck now s) ≡ Cli.flush_pending_changes duck now (as_cli s)
  unfolding Cgo.flush_pending_changes Cli.flush_pending_changes
  flush_twin = flush_cached_twin s.off_cache

  pub reconnect_twin :
      as_cli (Cgo.handle_reconnect duck now s) ≡ Cli.handle_reconnect duck now (as_cli s)
  unfolding Cgo.handle_reconnect Cli.handle_reconnect
  reconnect_twin =
      let flushed = Cgo.flush_pending_changes duck now s in
      ap (λ o. record (as_cli flushed) { off_cache = o }) (back_online_twin flushed.off_cache)
      ∙ ap (λ (x : Store lance). record x { off_cache = online x.off_cache }) flush_twin
