-- ===== src/SourceDetails/Trust.antt =====
-- The badge of a source (repoIsVerified of frontend/kindle/pages/source-details/script.js) and that of
-- its packages' cards (packageRepoVerified of frontend/kindle/utils.js).
use zen_pm.Package.{Package}
