-- ===== src/Moderation.antt =====
-- internal/moderation: the risk model (model.go), the store that applies the events of a moderation run
-- (store.go), the worker (worker.go) and the provider for local use (fixture.go). The provider that
-- calls a cloud service (aliyun.go) is an argument of the worker.
pub mod Model
pub mod Store
pub mod Fixture
pub mod Worker
pub mod Risk
pub mod Bodies
pub mod Frame
pub mod Runs
pub mod Messages
