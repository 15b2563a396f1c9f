-- ===== src/MongoDaemon/Limit.antt =====
-- How many documents `processMessage` of x/mongoDaemon/service.go asks for.
use dwh.Base.{ℕ, ◌+◌, ◌*◌, ◌≤◌, ◌<◌, ◌≡◌, ◌↔◌, arith}
use dwh.Indexer.Cursor.{half}
use dwh.MongoDaemon.{update_count}

-- Where the product fits an int64, and for a percentage up to 100, the count of documents to ask
-- for is the whole part of the percentage, which is at most the number of documents; it is 0,
-- which sets no limit, exactly where the percentage comes to less than one document.
pub update_count_bounds :
    (overall_count percent : ℕ)
    → overall_count * percent < half
    → percent ≤ 100
    → (update_count overall_count percent * 100 ≤ overall_count * percent)
      × (overall_count * percent < update_count overall_count percent * 100 + 100)
      × (update_count overall_count percent ≤ overall_count)
      × ((update_count overall_count percent ≡ 0) ↔ (overall_count * percent < 100))
unfolding update_count
update_count_bounds n p fits percent =
    let small : n * p ≤ n * 100 = grind arith in ground (arith, small)
