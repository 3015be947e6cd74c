-- ===== src/Dispatch.antt =====
-- packages/server/src/runtime/dispatch.ts: a request names a handler, which runs with a `Db` of its own.
--
-- A handler's body is the application's, a field of `Handler`; the transaction is the driver's, a
-- parameter of `dispatch`.
pub mod Atomic
use pramen.Base.{
  ℕ, suc, String, Bool, true, false, not, ◌==◌, Option, none, some, List, [], ◌∷◌, ◌++◌, any,
  contains, lookup, Result, ok, err, bad_request, forbidden, guard, if◌then◌else◌,
}
use pramen.Cell.{text}
use pramen.Where.{Json, plain, array, dict, Members, member}
use pramen.Acl.{Identity}
use pramen.Acl.Policies.{role_names, Resolvers, warmup}
use pramen.Outbox.{EnqueueOpts, enqueue_task}
use pramen.Db.{Env, Store, Run, after, pure, lift, ◌>>=◌, ◌>>◌}

pub data HandlerKind : Type 0 where
  query mutation : HandlerKind

pub data HandlerAuth : Type 0 where
  authenticated : HandlerAuth
  role_in : List String → HandlerAuth
  allowed_by : (Identity → Bool) → HandlerAuth

pub record Handler : Type 0 where
  pub kind : HandlerKind
  pub auth : Option HandlerAuth
  pub input : Option (Json → Result Json)
  pub run : Env → Json → Run Json

pub record DispatchResult : Type 0 where
  pub result : Json
  pub kind : HandlerKind
  pub touched : List String
  pub enqueued : ℕ

unfoldable pub single_held : Option Json → List String
single_held (some (plain (text s))) = if s == "" then [] else s ∷ []
single_held _ = []

unfoldable pub listed_roles : Option Json → List String
unfolding role_names
listed_roles (some (array js)) = role_names js
listed_roles _ = []

-- the roles that a caller holds: the single one first, if there is one
unfoldable pub held_roles : Json → List String
unfolding member single_held listed_roles
held_roles (dict ms) = single_held (member ms "role") ++ listed_roles (member ms "roles")
held_roles _ = []

-- `authorizeHandler` of sdk/handlers.ts
unfoldable pub authorize_handler : HandlerAuth → Identity → Bool
unfolding any contains held_roles
authorize_handler authenticated none = false
authorize_handler authenticated (some claims) = true
authorize_handler (allowed_by test) identity = test identity
authorize_handler (role_in roles) none = false
authorize_handler (role_in roles) (some claims) = any (λ r. contains r (held_roles claims)) roles

-- the check of `handler.auth`, where the handler has one
unfoldable pub is_authorized : Option HandlerAuth → Identity → Bool
unfolding authorize_handler
is_authorized none identity = true
is_authorized (some auth) identity = authorize_handler auth identity

-- the input that the handler's validator accepts
unfoldable pub parsed_input : Option (Json → Result Json) → Json → Result Json
parsed_input none raw = ok raw
parsed_input (some parse) raw = elim (parse raw) [ err e ↦ err bad_request | ok v ↦ ok v ]

-- `tasksFacade`: a keyed repeat is not counted
unfoldable pub enqueue_by : Env → EnqueueOpts → Run (Unit {0})
unfolding enqueue_task
enqueue_by env opts s = elim (enqueue_task true (env.mint s.minted) env.now opts s.outbox) [
  | err e ↦ (err e, record s { minted = suc s.minted })
  | ok (outbox, wrote) ↦ (
    ok tt,
    record s {
      outbox = outbox;
      task_enqueues = if wrote then suc s.task_enqueues else s.task_enqueues;
      minted = suc s.minted;
    },
  )
]

-- a `Db` that has touched nothing
unfoldable pub fresh : Store → Store
fresh s = record s { touched = []; task_enqueues = 0 }

module _ (resolvers : Resolvers) (transaction : Run Json → Run Json) (env : Env) where
  -- the context of the request: the parsed input, and the resolvers' answers
  unfoldable pub request_env : Json → Env
  unfolding warmup
  request_env parsed = record env {
    acl = record env.acl {
      input = some parsed;
      resolved = warmup resolvers env.acl.identity env.acl.acl;
      system = false;
    };
    suppress_triggers = false;
  }

  unfoldable pub run_as : HandlerKind → Run Json → Run Json
  run_as query run = run
  run_as mutation run = transaction run

  unfoldable pub result_of : HandlerKind → Json → Run DispatchResult
  result_of kind result s = (
    ok (record { result = result; kind = kind; touched = s.touched; enqueued = s.task_enqueues }),
    s,
  )

  unfoldable pub run_handler : Handler → Json → Run DispatchResult
  unfolding is_authorized parsed_input request_env run_as result_of
  run_handler h input = do
    lift (guard (is_authorized h.auth env.acl.identity) forbidden)
    parsed ← lift (parsed_input h.input input)
    result ← run_as h.kind (h.run (request_env parsed) parsed)
    result_of h.kind result

  unfoldable pub dispatch : List (String × Handler) → String → Json → Run DispatchResult
  unfolding lookup run_handler fresh
  dispatch handlers name input s = elim (lookup name handlers) [
    | none ↦ (err bad_request, s)
    | some h ↦ run_handler h input (fresh s)
  ]
