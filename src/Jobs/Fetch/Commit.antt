-- ===== src/Jobs/Fetch/Commit.antt =====
-- What the fetch of a pending message commits.
use py_aleph.Result.{Result}
