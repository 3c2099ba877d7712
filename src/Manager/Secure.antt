-- ===== src/Manager/Secure.antt =====
-- The servers of the manager are safe unless the command line says otherwise.
use mathlib.Core.Path.{subst}
use llm_inference_operator.Base.{
  ◌≡◌, ◌≢◌, refl, String, Bool, true, false, ◌||◌, List, [], ◌∷◌, map, Option, none, some, text_eq,
  All, All-append,
}
use llm_inference_operator.Flags.{
  Flag, go_on, classify, own_flag, library_flag, parse_flags, string_var, bool_var, set_first,
  set_second, parse_bool, write_bool,
}
use llm_inference_operator.Flags.Keeps.{mentions, IsKept, parse_flags-keeps}
use llm_inference_operator.Manager.{
  ManagerFlags, default_flags, manager_flags, all_flags, TlsConfig, manager_options,
}

-- `for _, opt := range TLSOpts { opt(cfg) }`
abbrev pub apply_options : List (TlsConfig → TlsConfig) → TlsConfig → TlsConfig
apply_options [] c = c
apply_options (f ∷ fs) c = apply_options fs (f c)

abbrev pub guarded : String → Bool
guarded name = text_eq name "enable-http2" || text_eq name "metrics-secure"

abbrev IsSafe : ManagerFlags → Type 0
IsSafe f = (f.enable_http2 ≡ false) × (f.secure_metrics ≡ true)

-- Flags that write neither of the two variables.
string_var-IsKept :
    (name : String) (write : String → ManagerFlags → ManagerFlags)
    → ((v : String) (f : ManagerFlags) → IsSafe f → IsSafe (write v f))
    → IsKept IsSafe (string_var name write)
string_var-IsKept name write keeps = record {
  kept = λ v f g safe e. let same : write v f ≡ g = cc in subst IsSafe same (keeps v f safe);
}

bool_var-IsKept :
    (name : String) (write : Bool → ManagerFlags → ManagerFlags)
    → ((b : Bool) (f : ManagerFlags) → IsSafe f → IsSafe (write b f))
    → IsKept IsSafe (bool_var name write)
unfolding bool_var
bool_var-IsKept name write keeps = record { kept = λ v f g safe e. go (parse_bool v) f g safe e }
  where
    go :
        (x : Option Bool) (f g : ManagerFlags) → IsSafe f → write_bool write f x ≡ some g → IsSafe g
    go none f g safe e = cc
    go (some b) f g safe e = let same : write b f ≡ g = cc in subst IsSafe same (keeps b f safe)

true_ne_false : true ≢ false
true_ne_false e = cc

manager_flags-All : All (λ f. guarded f.name ≡ false → IsKept IsSafe f) manager_flags
unfolding bool_var
manager_flags-All = (
  λ free. string_var-IsKept _ _ (λ v f safe. safe),
  (
    λ free. string_var-IsKept _ _ (λ v f safe. safe),
    (
      λ free. bool_var-IsKept _ _ (λ b f safe. safe),
      (
        λ free. absurd (true_ne_false free),
        (
          λ free. string_var-IsKept _ _ (λ v f safe. safe),
          (
            λ free. string_var-IsKept _ _ (λ v f safe. safe),
            (
              λ free. string_var-IsKept _ _ (λ v f safe. safe),
              (
                λ free. string_var-IsKept _ _ (λ v f safe. safe),
                (
                  λ free. string_var-IsKept _ _ (λ v f safe. safe),
                  (
                    λ free. string_var-IsKept _ _ (λ v f safe. safe),
                    (λ free. absurd (true_ne_false free), tt),
                  ),
                ),
              ),
            ),
          ),
        ),
      ),
    ),
  ),
)

module _ (Library : Type 0) where
  -- The same property next to the variables of the libraries.
  abbrev IsSafeWith : ManagerFlags × Library → Type 0
  IsSafeWith o = IsSafe o.0

  library_flag-IsKept : (f : Flag Library) → IsKept IsSafeWith (library_flag f)
  library_flag-IsKept f = record { kept = λ v o p safe e. go o p safe (f.set v o.1) e }
    where
      go :
          (o p : ManagerFlags × Library)
          → IsSafe o.0
          → (x : Option Library) → set_second o.0 x ≡ some p
          → IsSafe p.0
      go o p safe none e = cc
      go o p safe (some l) e =
          let same : (o.0, l) ≡ p = cc in
          subst (λ (q : ManagerFlags × Library). IsSafe q.0) same safe

  own_flag-IsKept : (f : Flag ManagerFlags) → IsKept IsSafe f → IsKept IsSafeWith (own_flag f)
  own_flag-IsKept f safe_flag = record {
    kept = λ v o p safe e. go o p safe (f.set v o.0) (λ g k. safe_flag.kept v o.0 g safe k) e;
  }
    where
      go :
          (o p : ManagerFlags × Library)
          → IsSafe o.0
          → (x : Option ManagerFlags) → ((g : ManagerFlags) → x ≡ some g → IsSafe g)
          → set_first o.1 x ≡ some p
          → IsSafe p.0
      go o p safe none kept e = cc
      go o p safe (some g) kept e =
          let same : (g, o.1) ≡ p = cc in
          subst (λ (q : ManagerFlags × Library). IsSafe q.0) same (kept g refl)

  own-All :
      (flags : List (Flag ManagerFlags))
      → All (λ f. guarded f.name ≡ false → IsKept IsSafe f) flags
      → All (λ f. guarded f.name ≡ false → IsKept IsSafeWith f) (map own_flag flags)
  own-All [] safe = tt
  own-All (f ∷ fs) (here, later) = (λ free. own_flag-IsKept f (here free), own-All fs later)

  library-All :
      (flags : List (Flag Library))
      → All (λ f. guarded f.name ≡ false → IsKept IsSafeWith f) (map library_flag flags)
  library-All [] = tt
  library-All (f ∷ fs) = (λ free. library_flag-IsKept f, library-All fs)

  -- Where no argument is the flag `enable-http2` or the flag `metrics-secure`, whatever the other arguments are and
  -- whatever flags the libraries register: the options of `main` leave "http/1.1" as the only protocol of
  -- both servers, whatever their TLS configuration was before, and the metrics are served
  -- over TLS, behind the filter for authentication and authorization.
  pub manager_options_secure :
      {Filter : Type 0} (with_authentication : Filter) (library_flags : List (Flag Library))
      (library_defaults : Library) (args : List String) (f : ManagerFlags) (library : Library)
      (c : TlsConfig)
      → All (λ s. mentions guarded (classify s) ≡ false) args
      → parse_flags (all_flags library_flags) args (default_flags, library_defaults)
        ≡ go_on (f, library)
      → let options = manager_options with_authentication f in
        ((apply_options options.webhook_server.tls_opts c).next_protos ≡ "http/1.1" ∷ [])
        × ((apply_options options.metrics.tls_opts c).next_protos ≡ "http/1.1" ∷ [])
        × (options.metrics.secure_serving ≡ true)
        × (options.metrics.filter_provider ≡ some with_authentication)
  unfolding manager_options
  manager_options_secure with_authentication library_flags library_defaults args f library c free
        parsed =
      let (http1, secure) =
        parse_flags-keeps IsSafeWith guarded (all_flags library_flags) (f, library) args
          (default_flags, library_defaults)
          (All-append _ (map own_flag manager_flags) (map library_flag library_flags)
            (own-All manager_flags manager_flags-All) (library-All library_flags))
          free (refl, refl) parsed in
      (rw http1 refl, rw http1 refl, secure, rw secure refl)
