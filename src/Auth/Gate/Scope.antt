-- ===== src/Auth/Gate/Scope.antt =====
-- The scope of an agent: which paths the middleware keeps it from.
use ecphoria.Prelude.{◌≡◌, false, not, some, ◌∷◌, ◌++◌, arith, eqb, All}
use ecphoria.Prelude.Eq.{nat_eq, list_eq, ◌==◌}
use ecphoria.Prelude.Text.{Str, codes, split, split-append}
use ecphoria.Auth.Roles.{agent, is_agent}
use ecphoria.Auth.State.{AuthContext}
use ecphoria.Auth.Gate.{out_of_scope, other_agent}

-- A context with the role and the scope of one agent is kept from the state of any other: a path
-- `/state/B/REST` is out of scope exactly when `B` is not the agent.
pub out_of_scope_state :
    (ctx : AuthContext) (a b rest : Str)
    → ctx.role ≡ agent
    → ctx.agent_id ≡ some a
    → All (λ c. eqb c b'/' ≡ false) b
    → out_of_scope ctx (codes "/state/" ++ b ++ b'/' ∷ rest) ≡ not (b == a)
unfolding out_of_scope other_agent split is_agent
out_of_scope_state ctx a b rest r s h = ground (arith, split-append b'/' b rest h)
