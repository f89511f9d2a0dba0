-- ===== src/Hashmap/Stale.antt =====
-- hashmap_put and hashmap_del over a hole in a chain of occupied slots.
use sizigy.Hashmap.{Hashmap}
