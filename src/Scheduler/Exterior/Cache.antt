-- ===== src/Scheduler/Exterior/Cache.antt =====
-- `AgentCache`: the dynamic libraries of agents that have been loaded, and what is called in them.
use fractalide.Prelude.{ℕ, String, Bool, Option, none, some, string_eq, if◌then◌else◌}
use fractalide.Prelude.Map.{Map, get, insert, contains_key}
use fractalide.Result.{Error, agent_not_found, Result, success, failure, Run, ok, err, panic, ◌>>=◌}
use fractalide.Ports.{World}
use fractalide.Ports.Ends.{MsgSender, MsgReceiver}

-- The functions of a library.
pub record AgentLoader (M A : Type 0) : Type 0 where
  pub create : ℕ → ℕ → World M → Result (A × Map String MsgSender) × World M
  pub clone_input : String → MsgSender → Result MsgSender
  pub clone_input_array : String → MsgSender → Result MsgSender
  pub create_input_array :
      String → ℕ → ℕ → Bool → World M → Result (MsgReceiver × MsgSender) × World M
  pub get_schema_input : String → Result String
  pub get_schema_input_array : String → Result String
  pub get_schema_output : String → Result String
  pub get_schema_output_array : String → Result String

abbrev pub AgentCache : Type 0 → Type 0 → Type 0
AgentCache M A = Map String (AgentLoader M A)

-- `ok_or` with `?`, and `expect`
abbrev pub ok_or : {T : Type 0} → Option T → Error → Run T
ok_or none e = err e
ok_or (some x) e = ok x

abbrev pub expect : {T : Type 0} → Result T → Run T
expect (success x) = ok x
expect (failure e) = panic

abbrev pub expect_ends :
    {M : Type 0}
    → Result (MsgReceiver × MsgSender) × World M
    → Run ((MsgReceiver × MsgSender) × World M)
expect_ends (r, w) = do ends ← expect r; ok (ends, w)

module _ {M A : Type 0} where
  -- What a library on the disk has, and none where it is missing or lacks one of the functions.
  unfoldable pub load_comp :
      (String → Option (AgentLoader M A)) → AgentCache M A → String → Run (AgentCache M A)
  load_comp load cache path =
      if contains_key cache path
      then ok cache
      else elim (load path) [ none ↦ panic | some loader ↦ ok (insert cache path loader) ]

  abbrev pub made :
      AgentCache M A
      → Result (A × Map String MsgSender) × World M
      → AgentCache M A × Result (A × Map String MsgSender) × World M
  made loaded (r, w) = (loaded, r, w)

  abbrev pub created :
      AgentCache M A
      → Option (AgentLoader M A)
      → ℕ
      → ℕ
      → World M
      → Run (AgentCache M A × Result (A × Map String MsgSender) × World M)
  created loaded none id sender w = panic
  created loaded (some loader) id sender w = ok (made loaded (loader.create id sender w))

  unfoldable pub create_comp :
      (String → Option (AgentLoader M A))
      → AgentCache M A
      → String
      → ℕ
      → ℕ
      → World M
      → Run (AgentCache M A × Result (A × Map String MsgSender) × World M)
  unfolding load_comp
  create_comp load cache path id sender w = do
    loaded ← load_comp load cache path
    created loaded (get loaded path) id sender w

  abbrev pub loader_of : AgentCache M A → String → Run (AgentLoader M A)
  loader_of cache comp = ok_or (get cache comp) (agent_not_found comp)

  unfoldable pub clone_input : AgentCache M A → String → String → MsgSender → Run MsgSender
  clone_input cache comp port sender = do
    loader ← loader_of cache comp
    expect (loader.clone_input port sender)

  unfoldable pub clone_input_array : AgentCache M A → String → String → MsgSender → Run MsgSender
  clone_input_array cache comp port sender = do
    loader ← loader_of cache comp
    expect (loader.clone_input_array port sender)

  unfoldable pub create_input_array :
      AgentCache M A
      → String
      → String
      → ℕ
      → ℕ
      → Bool
      → World M
      → Run ((MsgReceiver × MsgSender) × World M)
  create_input_array cache comp port id sched mc w = do
    loader ← loader_of cache comp
    expect_ends (loader.create_input_array port id sched mc w)

  unfoldable pub get_schema_input : AgentCache M A → String → String → Run String
  get_schema_input cache comp port = do
    loader ← loader_of cache comp
    expect (loader.get_schema_input port)

  unfoldable pub get_schema_input_array : AgentCache M A → String → String → Run String
  get_schema_input_array cache comp port = do
    loader ← loader_of cache comp
    expect (loader.get_schema_input_array port)

  unfoldable pub get_schema_output : AgentCache M A → String → String → Run String
  get_schema_output cache comp port = do
    loader ← loader_of cache comp
    expect (loader.get_schema_output port)

  unfoldable pub get_schema_output_array : AgentCache M A → String → String → Run String
  get_schema_output_array cache comp port = do
    loader ← loader_of cache comp
    expect (loader.get_schema_output_array port)
