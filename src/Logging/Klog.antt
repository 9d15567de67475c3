-- ===== src/Logging/Klog.antt =====
-- The loggers of a process: `SetupFromEnv`, `BridgeKlog`, `FromContext` and `WithValues` of
-- pkg/logging/logging.go. klog and logr are a parameter.
use rbln_k8s_dra_driver.Base.{ℕ, ◌≡◌, refl, ap, ◌∙◌, List, [], ◌∷◌, ◌++◌, append_assoc, append_nil}
use rbln_k8s_dra_driver.Go.Text.{Text}
use rbln_k8s_dra_driver.Logging.Setup.{Logger, Setup, setup_from_env, bridge_klog}

-- What the code calls of klog and logr, on the state that klog keeps in its package. A slog logger
-- that comes from a `logr.Logger` is a logger with the values that it adds to each record.
pub record Klog : Type 1 where
  pub State : Type 0
  pub Context : Type 0
  pub Logr : Type 0
  pub Arg : Type 0
  pub set_slog_logger : Logger → State → State
  pub clear_logger : State → State
  pub set_v : ℕ → State → State
  pub from_context : State → Context → Logr
  pub logger_with_values : Logr → List Arg → Logr
  pub new_context : Context → Logr → Context
  pub to_slog : Logr → Logger × List Arg

-- What klog documents: the logger of a context is the last one that was put in it, and the one of
-- klog where none was. The threshold of `-v` is apart from the loggers.
pub record KeepsLoggers (k : Klog) : Type 1 where
  pub IsBare : k.Context → Type 0
  pub v : k.State → ℕ
  pub in_context :
      (s : k.State) (c : k.Context) (g : k.Logr) → k.from_context s (k.new_context c g) ≡ g
  pub bare :
      (s : k.State) (c : k.Context) (l : Logger)
      → IsBare c
      → k.to_slog (k.from_context (k.set_slog_logger l s) c) ≡ (l, [])
  pub with_values :
      (g : k.Logr) (args : List k.Arg)
      → k.to_slog (k.logger_with_values g args) ≡ ((k.to_slog g).0, (k.to_slog g).1 ++ args)
  pub set_v-from_context :
      (n : ℕ) (s : k.State) (c : k.Context) → k.from_context (k.set_v n s) c ≡ k.from_context s c
  pub v-set_v : (n : ℕ) (s : k.State) → v (k.set_v n s) ≡ n
  pub v-clear_logger : (s : k.State) → v (k.clear_logger s) ≡ v s

-- The default logger of slog, and what klog keeps.
pub record Process (k : Klog) : Type 0 where
  pub default_logger : Logger
  pub klog : k.State

module _ (k : Klog) where
  -- `SetupFromEnv`: the logger that is set up becomes the default.
  unfoldable pub install : Setup → Process k → Process k
  install setup p = record p { default_logger = setup.logger }

  -- `BridgeKlog`
  unfoldable pub bridge : Text → Process k → Process k
  bridge level p = record p {
    klog = k.set_v (bridge_klog level) (k.set_slog_logger p.default_logger p.klog);
  }

  -- The first two calls of `main`.
  unfoldable pub start : Text → Text → Process k → Process k
  unfolding install bridge
  start level_value format_value p =
      let setup = setup_from_env level_value format_value in bridge setup.level (install setup p)

  -- `FromContext`
  unfoldable pub from_context : Process k → k.Context → Logger × List k.Arg
  from_context p c = k.to_slog (k.from_context p.klog c)

  -- `WithValues`
  unfoldable pub with_values : Process k → k.Context → List k.Arg → k.Context
  with_values p c args = k.new_context c (k.logger_with_values (k.from_context p.klog c) args)

  -- The context that a chain of calls of `WithValues` gives, and the values of the chain.
  unfoldable pub with_all : Process k → k.Context → List (List k.Arg) → k.Context
  with_all p c [] = c
  with_all p c (args ∷ chain) = with_all p (with_values p c args) chain

  unfoldable pub all_of : List (List k.Arg) → List k.Arg
  all_of [] = []
  all_of (args ∷ chain) = args ++ all_of chain

module _ (k : Klog) (keeps : KeepsLoggers k) where
  from_context-with_values :
      (p : Process k) (c : k.Context) (args : List k.Arg)
      → from_context k p (with_values k p c args)
        ≡ ((from_context k p c).0, (from_context k p c).1 ++ args)
  unfolding from_context with_values
  from_context-with_values p c args =
      ap k.to_slog (keeps.in_context p.klog c _) ∙ keeps.with_values _ args

  from_context-with_all :
      (p : Process k) (c : k.Context) (chain : List (List k.Arg))
      → from_context k p (with_all k p c chain)
        ≡ ((from_context k p c).0, (from_context k p c).1 ++ all_of k chain)
  unfolding with_all all_of
  from_context-with_all p c [] = rw (append_nil (from_context k p c).1) refl
  from_context-with_all p c (args ∷ chain) =
      from_context-with_all p (with_values k p c args) chain
      ∙ rw
          (
            from_context-with_values p c args,
            append_assoc (from_context k p c).1 args (all_of k chain),
          )
          refl

  -- Where klog behaves as documented: after the start of a process, the logger of a context on which
  -- `WithValues` was called any number of times, from a context without a logger, is the logger that
  -- the environment asks for, and it carries the values of all the calls in their order.
  pub from_context-start :
      (level_value format_value : Text) (p : Process k) (c : k.Context) (chain : List (List k.Arg))
      → keeps.IsBare c
      → let started = start k level_value format_value p in
        from_context k started (with_all k started c chain)
        ≡ ((setup_from_env level_value format_value).logger, all_of k chain)
  from_context-start level_value format_value p c chain bare =
      let started = start k level_value format_value p in
      let first : from_context k started c
          ≡ ((setup_from_env level_value format_value).logger, []) =
        unfold from_context start bridge install in
        (ap k.to_slog (keeps.set_v-from_context _ _ c) ∙ keeps.bare p.klog c _ bare) in
      from_context-with_all started c chain ∙ rw first refl
