-- ===== src/Tests.antt =====
-- Runs at concrete inputs, one module per part of the program.
pub mod AgentRuns
pub mod BuiltinRuns
pub mod ConfigRuns
pub mod DocsRuns
pub mod LarkRuns
pub mod LlmRuns
pub mod McpRuns
pub mod OauthFlowRuns
pub mod OauthRuns
pub mod ProviderRuns
pub mod RenderRuns
pub mod SessionRuns
pub mod ToolRuns
use ssh_bot.Base.{ℕ, zero, suc, ◌≡◌, refl, arith, [], ◌∷◌, Bytes, length}

abbrev pub repeat : ℕ → Bytes
repeat zero = []
repeat (suc n) = b'a' ∷ repeat n

pub length-repeat : (n : ℕ) → length (repeat n) ≡ n
length-repeat zero = refl
length-repeat (suc n) = omega (arith, length-repeat n)
