-- ===== src/Tests/Sidecar.antt =====
-- A flush of overrides through the sidecar, which dies after it has carried out the command and before
-- it has answered, is started again, and gets the command once more.
use rss_lance.Base.{ℕ, suc, zero, [], ◌∷◌, ◌+◌, Bool, true, false, none, some, ◌≡◌, refl, map}
use rss_lance.Base.Assoc.{Assoc, lookup, IsMap}
use rss_lance.Types.{Override}
use rss_lance.Writer.Groups.{flush_one}
use rss_lance.Process.Commands.{
  Command, Lines, Outside, Fate, answered, lost_answer, settle, dispatch, execute,
}
use rss_lance.Process.Writes.{flush_overrides}
use rss_lance.Process.AtLeastOnce.Overrides.{PythonProcess, flush_overrides-flushed}
use rss_lance.Tests.Data.{Tables, list_lance, two_articles}

abbrev plain : Lines
plain = record { Line = Command; encode = λ c. c; decode = λ c. some c; decode-encode = λ c. refl }

abbrev fate : ℕ → Fate
fate zero = lost_answer
fate (suc n) = answered

abbrev dies_once : Outside
dies_once = record {
  fate = fate;
  clock = λ n. 10 + n;
  launches = λ n. true;
  gets_ready = λ n. true;
}

abbrev nothing_else : Command → Tables → Bool × Tables
nothing_else c db = (false, db)

abbrev running : PythonProcess list_lance nothing_else true plain dies_once
running = record {
  alive = true;
  world = record { db = two_articles; exchanges = 0; launches = 1 };
  log = [];
}

abbrev overrides : Assoc Override
overrides =
    ("a", record { is_read = some true; is_starred = none })
    ∷ ("b", record { is_read = none; is_starred = none })
    ∷ []

overrides-IsMap : IsMap overrides
unfolding lookup
overrides-IsMap = (refl, (refl, tt))

flushes : (flush_overrides plain.encode overrides running).0 ≡ true
unfolding flush_overrides dispatch execute settle
flushes = refl

flush_overrides-flushed_example :
    (t : ℕ) × ((flush_overrides plain.encode overrides running).1.world.db.article_rows
      ≡ map (λ a. flush_one (lookup a.article_id overrides) t a) two_articles.article_rows)
flush_overrides-flushed_example =
    flush_overrides-flushed list_lance nothing_else true plain dies_once overrides running
      overrides-IsMap flushes
