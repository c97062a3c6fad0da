-- ===== src/Ioc/Index/Reach.antt =====
-- The indexes that sequences of operations of `IndicatorIndex` of src/ioc/ioc.cpp lead to.
use packet_guard.Base.{ℕ, List, [], ◌∷◌, Text}
use packet_guard.Ioc.Index.{
  IndicatorIndex, empty_index, add, remove_id, remove_key, reactivate_id, update_role, rebuild,
  compact,
}
use packet_guard.Ioc.Index.Rebuild.{IsIndexed}
use packet_guard.Ioc.Types.{Indicator, ListRole}
use packet_guard.Ioc.Index.Changes.{
  empty_index-IsIndexed, add-IsIndexed, remove_id-IsIndexed, remove_key-IsIndexed,
  reactivate_id-IsIndexed, update_role-IsIndexed, rebuild-IsIndexed, compact-IsIndexed,
}

-- The calls that change an index.
pub data Request : Type 0 where
  add_one : Indicator → Request
  remove_by_id : ℕ → Request
  remove_by_key : Text → Request
  reactivate : ℕ → Request
  set_role : ℕ → ListRole → Request
  rebuild_all compact_all : Request

unfoldable pub perform : IndicatorIndex → Request → IndicatorIndex
perform s (add_one i) = (add s i).1
perform s (remove_by_id id) = (remove_id s id).1
perform s (remove_by_key key) = (remove_key s key).1
perform s (reactivate id) = (reactivate_id s id).1
perform s (set_role id role) = (update_role s id role).1
perform s rebuild_all = rebuild s
perform s compact_all = compact s

unfoldable pub perform_all : IndicatorIndex → List Request → IndicatorIndex
perform_all s [] = s
perform_all s (r ∷ rest) = perform_all (perform s r) rest

pub perform-IsIndexed : (s : IndicatorIndex) (r : Request) → IsIndexed s → IsIndexed (perform s r)
unfolding perform
perform-IsIndexed s (add_one i) h = add-IsIndexed s i h
perform-IsIndexed s (remove_by_id id) h = remove_id-IsIndexed s id h
perform-IsIndexed s (remove_by_key key) h = remove_key-IsIndexed s key h
perform-IsIndexed s (reactivate id) h = reactivate_id-IsIndexed s id h
perform-IsIndexed s (set_role id role) h = update_role-IsIndexed s id role h
perform-IsIndexed s rebuild_all h = rebuild-IsIndexed s
perform-IsIndexed s compact_all h = compact-IsIndexed s

perform_all-IsIndexed :
    (rs : List Request) (s : IndicatorIndex) → IsIndexed s → IsIndexed (perform_all s rs)
unfolding perform_all
perform_all-IsIndexed [] s h = h
perform_all-IsIndexed (r ∷ rs) s h =
    perform_all-IsIndexed rs (perform s r) (perform-IsIndexed s r h)

-- Whatever additions, removals, reactivations, changes of role, rebuilds and compactions lead to an
-- index from the empty one, its maps and its trie hold the slots of its active records under their
-- keys, domains, hashes and range paths, in order, and no others, and an id leads to the
-- last record that has it, active or not, and no other id leads anywhere.
pub reachable-IsIndexed : (rs : List Request) → IsIndexed (perform_all empty_index rs)
reachable-IsIndexed rs = perform_all-IsIndexed rs empty_index empty_index-IsIndexed
