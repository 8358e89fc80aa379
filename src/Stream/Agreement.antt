-- ===== src/Stream/Agreement.antt =====
-- The retriable kinds of the adapters against the router's classification of the same answer.
use freellm_gateway.Base.{eq_nat}
