-- ===== src/Agent/Turn/Ready.antt =====
-- What the loop over the events of internal/agent/loop.go has read behind some deltas.
use ssh_bot.Base.{
  ℕ, ◌+◌, ◌≤◌, ◌≡◌, ◌≢◌, refl, ap, sym, subst, ◌∙◌, Bool, true, false, ◌⊎◌, Option, none, some,
  List, [], ◌∷◌, ◌++◌, append_assoc, append-nil, arith, ltb, le→ltb_false, Bytes, length,
  length-append, All, lookup, insert, lookup-insert, Assoc,
}
use ssh_bot.Llm.Stream.{IsBody, text_of}
use ssh_bot.Llm.Types.{
  StreamEvent, thinking_delta, text_delta, tool_call_start, tool_call_args, tool_call_end,
  message_end, error, Usage,
}
use ssh_bot.Session.Store.{Store}
use ssh_bot.Tool.Registry.{Registry}
use ssh_bot.Agent.Exec.{Env}
use ssh_bot.Agent.Turn.Keeps.{IsKnown, IsKnown-insert, IsKnown-add}
use ssh_bot.Agent.Turn.{
  max_arguments_len, PartialCall, Turn, Flow, continue, return, is_blank, emit, on_start, add_args,
  on_args, on_event, on_events,
}

-- The bytes of arguments in some events.
abbrev pub args_size : List StreamEvent → ℕ
args_size [] = 0
args_size (tool_call_args id name delta ∷ evs) = length delta + args_size evs
args_size (_ ∷ evs) = args_size evs

-- An event opens or continues a tool call.
abbrev pub has_call : List StreamEvent → Bool
has_call [] = false
has_call (tool_call_start id name text ∷ evs) = true
has_call (tool_call_args id name delta ∷ evs) = true
has_call (_ ∷ evs) = has_call evs

-- A stream of deltas with a message_end as its last event, whose arguments are within the cap, and
-- which has tool calls or, as `calls` says, none of them but a text that is not blank.
pub record IsReply (calls : Bool) (evs : List StreamEvent) : Type 0 where
  pub body : List StreamEvent
  pub reason : Bytes
  pub usage : Usage
  pub is : evs ≡ body ++ message_end reason usage ∷ []
  pub deltas : All IsBody body
  pub fits : args_size body ≤ max_arguments_len
  pub calls_is : has_call body ≡ calls
  pub full : (calls ≡ true) ⊎ (is_blank (text_of body) ≡ false)

pub no_entry : (id : Bytes) (pc : PartialCall) → lookup id [] ≡ some pc → ⊥
unfolding lookup
no_entry id pc h = cc

-- Whether a call is open.
abbrev pub Opened : Bool → Assoc PartialCall → List Bytes → Type 0
Opened true partials order = order ≢ []
Opened false partials order = (order ≡ []) × (partials ≡ [])

module _ (store : Store) (env : Env) (step : ℕ) (reg : Registry) where
  -- The state behind deltas with `n` bytes of arguments, which have opened a call if `calls` and
  -- joined to the text `text`.
  pub record Ready (n : ℕ) (calls : Bool) (text : Bytes) (t : Turn store.State) : Type 0 where
    pub known : IsKnown t.partials t.order
    pub sizes :
        (id : Bytes) (pc : PartialCall) → lookup id t.partials ≡ some pc → length pc.args ≤ n
    pub is_open : Opened calls t.partials t.order
    pub text_is : t.text_buf ≡ text
    pub none_yet : t.asst.tool_calls ≡ []

  -- The calls that are open after some deltas.
  abbrev pub opened_after : Bool → List StreamEvent → Bool
  opened_after calls [] = calls
  opened_after calls (tool_call_start id name text ∷ evs) = opened_after true evs
  opened_after calls (tool_call_args id name delta ∷ evs) = opened_after true evs
  opened_after calls (_ ∷ evs) = opened_after calls evs

  on_start-Ready :
      (id name : Bytes) (o : Option PartialCall) (n : ℕ) (calls : Bool) (text : Bytes)
      (t : Turn store.State)
      → lookup id t.partials ≡ o
      → Ready n calls text t
      → Ready n true text (on_start store env step reg id name o t)
  unfolding on_event
  on_start-Ready id name (some pc) n true text t e r = r
  on_start-Ready id name (some pc) n false text t e r = absurd (none_open (rw r.is_open.1 at e))
    where
      none_open : lookup id [] ≡ some pc → ⊥
      none_open x = no_entry id pc x
  on_start-Ready id name none n calls text t e r = record {
    known =
        IsKnown-add id (record { name = name; args = [] }) t.partials t.order (omega arith) r.known;
    sizes = λ i p h.
        ground
          (arith, lookup-insert id i (record { name = name; args = [] }) t.partials, r.sizes i p);
    is_open = λ x. not_nil t.order x;
    text_is = r.text_is;
    none_yet = r.none_yet;
  }
    where
      not_nil : (order : List Bytes) → order ++ id ∷ [] ≡ [] → ⊥
      not_nil [] x = cc
      not_nil (j ∷ order) x = cc

  -- Arguments for an open call, within the cap.
  add_args-Ready :
      (id delta : Bytes) (pc : PartialCall) (n : ℕ) (text : Bytes) (t : Turn store.State)
      → length pc.args ≤ n
      → n + length delta ≤ max_arguments_len
      → Ready n true text t
      → (t' : Turn store.State) × (add_args store env step reg id delta pc t ≡ continue t')
        × Ready (n + length delta) true text t'
  unfolding on_event
  add_args-Ready id delta pc n text t small fits r =
      let pc' = record pc { args = pc.args ++ delta } in
      let size : length pc'.args ≤ n + length delta =
        omega (arith, length-append pc.args delta, small) in
      let within : ltb max_arguments_len (length pc.args + length delta) ≡ false =
        le→ltb_false _ _ (omega (arith, small, fits)) in
      (
        record t { partials = insert id pc' t.partials },
        rw within,
        record {
          known = IsKnown-insert id pc' t.partials t.order (omega (arith, size, fits)) r.known;
          sizes = λ i p h. ground (arith, lookup-insert id i pc' t.partials, r.sizes i p, size);
          is_open = r.is_open;
          text_is = r.text_is;
          none_yet = r.none_yet;
        },
      )

  on_args-Ready :
      (id name delta : Bytes) (o : Option PartialCall) (n : ℕ) (calls : Bool) (text : Bytes)
      (t : Turn store.State)
      → lookup id t.partials ≡ o
      → n + length delta ≤ max_arguments_len
      → Ready n calls text t
      → (t' : Turn store.State) × (on_args store env step reg id name delta o t ≡ continue t')
        × Ready (n + length delta) true text t'
  unfolding on_event
  on_args-Ready id name delta (some pc) n calls text t e fits r =
      add_args-Ready id delta pc n text t (r.sizes id pc e) fits
        (on_start-Ready id name (some pc) n calls text t e r)
  on_args-Ready id name delta none n calls text t e fits r =
      add_args-Ready id delta (record { name = name; args = [] }) n text _ (omega arith) fits
        (on_start-Ready id name none n calls text t e r)

  pub Ready-eq :
      (n n' : ℕ) (calls : Bool) (text text' : Bytes) (t : Turn store.State)
      → n ≡ n'
      → text ≡ text'
      → Ready n calls text t
      → Ready n' calls text' t
  Ready-eq n n' calls text text' t a b r =
      subst (λ x. Ready n' calls x t) b (subst (λ x. Ready x calls text t) a r)

  abbrev follow : List StreamEvent → Flow store.State → Flow store.State
  follow evs f = elim f [
    | continue t ↦ on_events store env step reg t evs
    | return e t ↦ return e t
  ]

  on_events_next :
      (ev : StreamEvent) (evs : List StreamEvent) (t t1 : Turn store.State)
      → on_event store env step reg t ev ≡ continue t1
      → on_events store env step reg t (ev ∷ evs) ≡ on_events store env step reg t1 evs
  unfolding on_events
  on_events_next ev evs t t1 e = ap (follow evs) e

  -- What a body of deltas is read to, with `rest` behind it.
  abbrev pub Read :
      ℕ → Bool → Bytes → List StreamEvent → Turn store.State → Flow store.State → Type 0
  Read n calls text rest t f =
      (t' : Turn store.State) × (f ≡ on_events store env step reg t' rest) × Ready n calls text t'

  pub deltas-Read :
      (body rest : List StreamEvent) (n : ℕ) (calls : Bool) (text : Bytes) (t : Turn store.State)
      → All IsBody body
      → n + args_size body ≤ max_arguments_len
      → Ready n calls text t
      → Read
          (n + args_size body)
          (opened_after calls body)
          (text ++ text_of body)
          rest
          t
          (on_events store env step reg t (body ++ rest))
  unfolding on_events
  deltas-Read [] rest n calls text t b fits r = (
    t,
    refl,
    Ready-eq n (n + 0) calls text (text ++ []) t (omega arith) (sym (append-nil text)) r,
  )
  deltas-Read (thinking_delta d ∷ body) rest n calls text t b fits r =
      deltas-Read body rest n calls text _ b.1 fits (record {
        known = r.known;
        sizes = r.sizes;
        is_open = r.is_open;
        text_is = r.text_is;
        none_yet = r.none_yet;
      })
  deltas-Read (text_delta d ∷ body) rest n calls text t b fits r =
      let (t', e, r') =
        deltas-Read body rest n calls (text ++ d)
          (emit (record t { text_buf = t.text_buf ++ d }) (text_delta d ∷ [])) b.1 fits
          (record {
            known = r.known;
            sizes = r.sizes;
            is_open = r.is_open;
            text_is = ap (λ s. s ++ d) r.text_is;
            none_yet = r.none_yet;
          }) in
      (t', e, Ready-eq _ _ _ _ _ t' refl (append_assoc text d (text_of body)) r')
  deltas-Read (tool_call_start id name d ∷ body) rest n calls text t b fits r =
      deltas-Read body rest n true text _ b.1 fits
        (on_start-Ready id name (lookup id t.partials) n calls text t refl r)
  deltas-Read (tool_call_args id name delta ∷ body) rest n calls text t b fits r =
      let (t1, e1, r1) =
        on_args-Ready id name delta (lookup id t.partials) n calls text t refl (omega (arith, fits))
          r in
      let (t', e, r') =
        deltas-Read body rest (n + length delta) true text t1 b.1 (omega (arith, fits)) r1 in
      (
        t',
        on_events_next (tool_call_args id name delta) (body ++ rest) t t1 e1 ∙ e,
        Ready-eq _ _ _ _ _ t' (omega arith) refl r',
      )
  deltas-Read (tool_call_end id name d ∷ body) rest n calls text t b fits r =
      deltas-Read body rest n calls text t b.1 fits r
  deltas-Read (message_end reason usage ∷ body) rest n calls text t b fits r = absurd b.0
  deltas-Read (error e ∷ body) rest n calls text t b fits r = absurd b.0

  opened_already : (body : List StreamEvent) → opened_after true body ≡ true
  opened_already [] = refl
  opened_already (thinking_delta d ∷ body) = opened_already body
  opened_already (text_delta d ∷ body) = opened_already body
  opened_already (tool_call_start id name d ∷ body) = opened_already body
  opened_already (tool_call_args id name d ∷ body) = opened_already body
  opened_already (tool_call_end id name d ∷ body) = opened_already body
  opened_already (message_end reason usage ∷ body) = opened_already body
  opened_already (error e ∷ body) = opened_already body

  pub opened_first : (body : List StreamEvent) → opened_after false body ≡ has_call body
  opened_first [] = refl
  opened_first (thinking_delta d ∷ body) = opened_first body
  opened_first (text_delta d ∷ body) = opened_first body
  opened_first (tool_call_start id name d ∷ body) = opened_already body
  opened_first (tool_call_args id name d ∷ body) = opened_already body
  opened_first (tool_call_end id name d ∷ body) = opened_first body
  opened_first (message_end reason usage ∷ body) = opened_first body
  opened_first (error e ∷ body) = opened_first body
