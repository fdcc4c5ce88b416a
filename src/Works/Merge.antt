-- ===== src/Works/Merge.antt =====
-- internal/domain/work_merge_service.go: recording and undoing the merge of a work. A call returns
-- the store that it leaves, and writes only when it succeeds. The events that the calls return
-- carry the source id and the time and are left out.
pub mod Chains
pub mod Undo
mod Samples
use alexandryn.Base.{suc, Bool, none, some, [], length, Text, conflict, error}
use alexandryn.Merging.Chain.{member, reachable_loop}
use alexandryn.Merging.Run.{Run, pure, lift, fail_if, ◌>>=◌, ◌>>◌}
use alexandryn.Works.{WorkStore, find_by_id, merged_into_of, save}
use alexandryn.Works.Resolve.{resolve_canonical_work, contains_closure}

pub source_reachable_from_target : WorkStore → Text → Text → Run Bool
source_reachable_from_target works source target =
    reachable_loop (merged_into_of works) source (suc (length works)) [] target

pub would_create_self_containment : WorkStore → Text → Text → Run Bool
would_create_self_containment works source target = do
  target_canonical ← resolve_canonical_work works target
  source_canonical ← resolve_canonical_work works source
  closure ← contains_closure works target_canonical
  pure (member source_canonical closure)

pub record_merge : WorkStore → Text → Text → Run WorkStore
record_merge works source target = do
  reachable ← source_reachable_from_target works source target
  fail_if reachable (error conflict)
  self_containing ← would_create_self_containment works source target
  fail_if self_containing (error conflict)
  source_work ← lift (find_by_id works source)
  pure (save works (record source_work { merged_into = some target }))

pub undo_merge : WorkStore → Text → Run WorkStore
undo_merge works source = do
  source_work ← lift (find_by_id works source)
  pure (save works (record source_work { merged_into = none }))
