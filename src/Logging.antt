-- ===== src/Logging.antt =====
-- core/logging.py: what the standard logging and structlog are configured with.
use nexus_ai_platform.Prelude.{String, Bool, true, Option, none, some, List, [], ◌∷◌}

-- The processors of a log entry, in their order.
pub data Processor : Type 0 where
  merge_contextvars add_log_level json_renderer : Processor
  time_stamper : String → Bool → Processor

-- The configuration: `Level` is what `logging` has as levels.
pub record LoggingSetup (Level : Type 0) : Type 0 where
  pub format : String
  pub root_level : Level
  pub processors : List Processor
  pub wrapper_level : Level

-- `getattr(logging, …, logging.INFO)`
unfoldable pub level_or : {Level : Type 0} → Level → Option Level → Level
level_or info none = info
level_or info (some level) = level

-- `attribute` reads an attribute of the module `logging`, and `upper` is `str.upper`.
unfoldable pub configure_logging :
    {Level : Type 0}
    → (String → Option Level)
    → Level
    → (String → String)
    → String
    → LoggingSetup Level
configure_logging attribute info upper log_level = record {
  format = "%(message)s";
  root_level = level_or info (attribute (upper log_level));
  processors = merge_contextvars ∷ add_log_level ∷ time_stamper "iso" true ∷ json_renderer ∷ [];
  wrapper_level = level_or info (attribute (upper log_level));
}
