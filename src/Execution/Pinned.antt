-- ===== src/Execution/Pinned.antt =====
-- Submissions of a session that overlap (packages/session-execution/src/index.ts): whatever their order,
-- they go to one execution runtime.
use managed_agents.Common.{
  String, Option, none, some, List, [], ◌∷◌, ◌++◌, ◌≡◌, refl, sym, subst, ◌∙◌, Result, ok, err,
  ok_eq, require-eq-ok, eq_iff, arith, All, All-append,
}
use managed_agents.Common.Exec.{continue}
use managed_agents.Contracts.Json.{Json}
use managed_agents.Contracts.Operation.{ProviderSubmission}
use managed_agents.Contracts.LlmMessage.{SessionDestination}
use managed_agents.Contracts.ToolExecution.{Url, ToolExecutionSubmission}
use managed_agents.Execution.{
  RuntimeBinding, ExecutionConfig, Preparation, SessionExecution, pin, begin, keep_pinned,
  settle_preparing, dispatched, same_binding, enter, addressed,
}

-- A part of a submission between two awaits: it enters, the discovery is answered, or the binding is read
-- and the submission is sent to the worker.
pub data Step : Type 0 where
  entered : SessionDestination → ProviderSubmission → ExecutionConfig → Step
  answered : Result Json → Step
  sent : SessionDestination → String → String → ExecutionConfig → ProviderSubmission → Step

unfoldable pub sends : Result ToolExecutionSubmission → List ToolExecutionSubmission
sends (ok submission) = submission ∷ []
sends (err e) = []

-- what a worker gets in a step, and the state after it
unfoldable pub take_step :
    (String → Option Url)
    → Step
    → SessionExecution
    → List ToolExecutionSubmission × SessionExecution
take_step parse_url (entered destination submission config) s =
    ([], (enter parse_url destination submission config s).1)
take_step parse_url (answered reply) s = ([], (settle_preparing reply s.preparing s).1)
take_step parse_url (sent destination gateway_url machine_id config submission) s =
    (sends (dispatched s.runtime destination gateway_url machine_id config submission), s)

unfoldable pub take_steps :
    (String → Option Url)
    → List Step
    → SessionExecution
    → List ToolExecutionSubmission × SessionExecution
take_steps parse_url [] s = ([], s)
take_steps parse_url (step ∷ steps) s =
    let (first, s₁) = take_step parse_url step s in
    let (rest, s₂) = take_steps parse_url steps s₁ in (first ++ rest, s₂)

-- A submission that goes to the pinned runtime.
abbrev pub SentTo : Option RuntimeBinding → ToolExecutionSubmission → Type 0
SentTo none x = ⊥
SentTo (some b) x =
    (x.execution.gateway_url ≡ b.gateway_url)
    × (x.execution.runtime_generation ≡ b.runtime_generation)
    × (x.destination.session_id ≡ b.destination.session_id)
    × (x.destination.route_key ≡ b.destination.route_key)

abbrev Pinned : Option RuntimeBinding → Option RuntimeBinding → Type 0
Pinned before after = (b : RuntimeBinding) → before ≡ some b → after ≡ some b

pin-Pinned : (fresh : RuntimeBinding) (old : Option RuntimeBinding) → Pinned old (pin fresh old)
unfolding pin
pin-Pinned fresh none b e = cc
pin-Pinned fresh (some old) b e = e

begin-runtime : (p : Preparation) (s : SessionExecution) → (begin p s).runtime ≡ s.runtime
unfolding begin
begin-runtime p s = ground arith

enter-runtime :
    (target : Result (String × String)) (make : String × String → Preparation)
    (s : SessionExecution)
    → (continue target (λ t (s : SessionExecution). (ok t, begin (make t) s)) s).1.runtime
      ≡ s.runtime
enter-runtime (err e) make s = refl
enter-runtime (ok target) make s = begin-runtime (make target) s

keep_pinned-Pinned :
    (found : Result RuntimeBinding) (s : SessionExecution)
    → Pinned s.runtime (keep_pinned found s).1.runtime
unfolding keep_pinned
keep_pinned-Pinned (err e) s b k = k
keep_pinned-Pinned (ok fresh) s b k = pin-Pinned fresh s.runtime b k

settle_preparing-Pinned :
    (reply : Result Json) (preparing : Option Preparation) (s : SessionExecution)
    → Pinned s.runtime (settle_preparing reply preparing s).1.runtime
unfolding settle_preparing
settle_preparing-Pinned reply none s b k = k
settle_preparing-Pinned reply (some p) s b k =
    keep_pinned-Pinned _ (record s { preparing = none }) b k

SentTo-later :
    (before after : Option RuntimeBinding) (x : ToolExecutionSubmission)
    → Pinned before after
    → SentTo before x
    → SentTo after x
SentTo-later none after x k found = absurd found
SentTo-later (some b) after x k found = subst (λ o. SentTo o x) (sym (k b refl)) found

dispatched-SentTo :
    (bound : Option RuntimeBinding) (destination : SessionDestination)
    (gateway_url machine_id : String) (config : ExecutionConfig) (submission : ProviderSubmission)
    (x : ToolExecutionSubmission)
    → dispatched bound destination gateway_url machine_id config submission ≡ ok x
    → SentTo bound x
unfolding dispatched same_binding
dispatched-SentTo none destination gateway_url machine_id config submission x e = cc
dispatched-SentTo (some b) destination gateway_url machine_id config submission x e =
    let (same, shown) = require-eq-ok (same_binding b destination gateway_url machine_id) _ _ e in
    subst (SentTo (some b)) (ok_eq shown) (
      sym ((eq_iff b.gateway_url gateway_url).0 (ground (arith, same))),
      refl,
      sym ((eq_iff b.destination.session_id destination.session_id).0 (ground (arith, same))),
      sym ((eq_iff b.destination.route_key destination.route_key).0 (ground (arith, same))),
    )

sends-SentTo :
    (bound : Option RuntimeBinding) (made : Result ToolExecutionSubmission)
    → ((x : ToolExecutionSubmission) → made ≡ ok x → SentTo bound x)
    → All (SentTo bound) (sends made)
unfolding sends
sends-SentTo bound (ok x) k = (k x refl, tt)
sends-SentTo bound (err e) k = tt

All-later :
    (before after : Option RuntimeBinding) (xs : List ToolExecutionSubmission)
    → Pinned before after
    → All (SentTo before) xs
    → All (SentTo after) xs
All-later before after [] k a = tt
All-later before after (x ∷ xs) k (p, a) =
    (SentTo-later before after x k p, All-later before after xs k a)

module _ (parse_url : String → Option Url) where
  take_step-Pinned :
      (step : Step) (s : SessionExecution)
      → Pinned s.runtime (take_step parse_url step s).1.runtime
        × All (SentTo s.runtime) (take_step parse_url step s).0
  unfolding take_step enter
  take_step-Pinned (entered destination submission config) s =
      (λ b k. enter-runtime (addressed parse_url submission config) _ s ∙ k, tt)
  take_step-Pinned (answered reply) s = (settle_preparing-Pinned reply s.preparing s, tt)
  take_step-Pinned (sent destination gateway_url machine_id config submission) s = (
    λ b k. k,
    sends-SentTo s.runtime _
        (dispatched-SentTo s.runtime destination gateway_url machine_id config submission),
  )

  -- However the parts of a session's submissions interleave and whatever discovery answers, a session
  -- that is pinned to an execution runtime stays pinned to it, and every submission that is sent goes to
  -- the gateway, generation and destination that the session is pinned to in the end.
  pub take_steps-one_runtime :
      (steps : List Step) (s : SessionExecution)
      → ((b : RuntimeBinding)
          → s.runtime ≡ some b
          → (take_steps parse_url steps s).1.runtime ≡ some b)
        × All (SentTo (take_steps parse_url steps s).1.runtime) (take_steps parse_url steps s).0
  unfolding take_steps
  take_steps-one_runtime [] s = (λ b k. k, tt)
  take_steps-one_runtime (step ∷ steps) s =
      let s₁ = (take_step parse_url step s).1 in
      let (kept, first) = take_step-Pinned step s in
      let (later, rest) = take_steps-one_runtime steps s₁ in
      (
        λ b k. later b (kept b k),
        All-append _ _ (take_steps parse_url steps s₁).0
            (All-later s.runtime _ _ (λ b k. later b (kept b k)) first) rest,
      )
