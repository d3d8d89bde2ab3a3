-- ===== src/Routing.antt =====
-- packages/work-router/src and packages/model-router/src: who does the work, and by which model.
pub mod Registry
pub mod Work
pub mod WorkLaws
pub mod ClassLaws
pub mod Models
pub mod ModelLaws
