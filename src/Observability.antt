-- ===== src/Observability.antt =====
-- crates/roos-observability/src/logging.rs: how logging is set up. `EnvFilter::try_new` and the
-- `try_init` of the subscriber are parameters; what they install is in the world.
use roos.Base.{Text, Result}
use roos.Base.Action.{Action, lift, pure, ◌>>=◌, ◌>>◌}

-- `F` is a filter.
pub record Tracing (W F : Type 0) : Type 0 where
  pub try_new : Text → Result Text F
  pub try_init : F → Action W Text (Unit {0})

unfoldable pub init_logging : {W F : Type 0} → Tracing W F → Text → Action W Text (Unit {0})
init_logging tracing level = do
  filter ← lift (tracing.try_new level)
  tracing.try_init filter
  pure tt
