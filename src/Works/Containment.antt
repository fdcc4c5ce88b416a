-- ===== src/Works/Containment.antt =====
-- internal/domain/work_containment_service.go: adding and removing a contained work. A call returns
-- the store that it leaves; the events are left out.
mod Edits
mod Samples
use alexandryn.Base.{◌+◌, not, [], ◌∷◌, ◌++◌, filter, Text, text_eq, conflict, error}
use alexandryn.Merging.Chain.{member}
use alexandryn.Merging.Run.{Run, pure, lift, fail_if, ◌>>=◌, ◌>>◌}
use alexandryn.Works.{WorkStore, find_by_id, save}
use alexandryn.Works.Resolve.{resolve_canonical_work, contains_closure}

pub add_contains : WorkStore → Text → Text → Run WorkStore
add_contains works container containee = do
  container_canonical ← resolve_canonical_work works container
  containee_canonical ← resolve_canonical_work works containee
  fail_if (text_eq container_canonical containee_canonical) (error conflict)
  closure ← contains_closure works containee_canonical
  fail_if (member container_canonical closure) (error conflict)
  container_work ← lift (find_by_id works container)
  pure (
      save works (record container_work { contains = container_work.contains ++ (containee ∷ []) }))

pub remove_contains : WorkStore → Text → Text → Run WorkStore
unfolding filter
remove_contains works container containee = do
  container_work ← lift (find_by_id works container)
  let filtered = filter (λ id. not (text_eq id containee)) container_work.contains
  pure (save works (record container_work { contains = filtered }))
