-- ===== src/Tests.antt =====
-- The theorems at concrete inputs, and the definitions run on them.
mod OutcomesTests
mod BalancerTests
mod LimitTests
mod DispatchTests
mod AttemptTests
mod GroupTests
mod StreamTests
mod AdmissionTests
mod CatalogTests
mod StoreTests
mod WhitelistTests
