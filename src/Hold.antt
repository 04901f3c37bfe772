-- ===== src/Hold.antt =====
-- A value held from each cut to the next, equal neighbours merged: the loop that ends
-- `best_link_segments` (engine/statistics.py) and `evaluate_routes` (engine/routing.py).
mod Defs
mod Laws
pub use Defs.{Held}
unfoldable pub use Defs.{append_held, hold_from}
pub use Laws.{
  Tiles, Tiles-le, Cuts, value_at, step_value, Differ, hold_from-Tiles, hold_from-Differ,
  hold_from-value,
}
