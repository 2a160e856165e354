-- ===== src/Metrics/Channel.antt =====
-- The circuit state of a channel, against the states of its keys.
use ccx.Base.{
  ℕ, string_eq, ◌≡◌, refl, sym, ◌∙◌, ap, Bool, false, ◌||◌, Option, none, some, List, [], ◌∷◌, map,
  arith, String, str_eq, eq_iff, if◌then◌else◌, Option-cases, Bool-cases, inl, inr,
}
use ccx.Base.Dict.{Dict, lookup, insert, lookup-insert}
use ccx.Breaker.{
  Config, Key, CircuitState, state_closed, state_open, state_half_open, is_closed, is_half_open,
  advance_circuit_state_if_due,
}
use ccx.Metrics.{
  Names, present_names, identity_name, metrics_lookup_keys, circuit_loop, channel_circuit_state,
  url_key_pairs, first_name,
}

-- A channel is closed if one of its pairs is, else half-open if one of them is, else open.
abbrev pub channel_verdict : List CircuitState → Bool → CircuitState
channel_verdict [] half = if half then state_half_open else state_open
channel_verdict (s ∷ ss) half =
    let rest = channel_verdict ss (half || is_half_open s) in
    if is_closed s then state_closed else rest

module _ (c : Config) where
  -- The circuit state of a key as a request at `now` finds it.
  unfoldable pub state_at : ℕ → Key → CircuitState
  state_at now k = (advance_circuit_state_if_due c now k).metrics.circuit_state

  state_at-advance :
      (now : ℕ) (k : Key) → state_at now (advance_circuit_state_if_due c now k) ≡ state_at now k
  unfolding state_at advance_circuit_state_if_due
  state_at-advance now k = ground arith

  abbrev pub state_of : ℕ → Option Key → Option CircuitState
  state_of now none = none
  state_of now (some k) = some (state_at now k)

  -- The same names have metrics, in the same states.
  record SameStates (now : ℕ) (keys keys' : Dict String Key) : Type 0 where
    same : (name : String) → state_of now (lookup name keys') ≡ state_of now (lookup name keys)

  advance-SameStates :
      (now : ℕ) (name : String) (k : Key) (keys keys' : Dict String Key)
      → SameStates now keys keys'
      → lookup name keys' ≡ some k
      → SameStates now keys (insert name (advance_circuit_state_if_due c now k) keys')
  advance-SameStates now name k keys keys' h e = record {
    same = λ other. elim (Bool-cases (str_eq name other)) [
      | inl y ↦
          rw (lookup-insert, y)
            (ap some (state_at-advance now k)
              ∙ sym (ap (state_of now) e)
              ∙ rw ((eq_iff name other).0 y) (h.same other))
      | inr n ↦ rw (lookup-insert, n) (h.same other)
    ];
  }

  state_at-same :
      (now : ℕ) (name : String) (k k0 : Key) (keys keys' : Dict String Key)
      → SameStates now keys keys'
      → lookup name keys' ≡ some k
      → lookup name keys ≡ some k0
      → state_at now k ≡ state_at now k0
  state_at-same now name k k0 keys keys' h l l0 = ground (arith, h.same name, l, l0)

  -- One step of the loop, on the states that it reads.
  chosen-SameStates :
      (now : ℕ) (k k0 : Key) (keys' : Dict String Key) (later : Dict String Key × CircuitState)
      (rest : Bool → CircuitState) (half : Bool)
      → state_at now k ≡ state_at now k0
      → later.1 ≡ rest (half || is_half_open (state_at now k))
      → (if is_closed (state_at now k) then (keys', state_closed) else later).1 ≡ (
          if is_closed (state_at now k0)
          then state_closed
          else rest (half || is_half_open (state_at now k0)))
  chosen-SameStates now k k0 keys' later rest half e r =
      rw e (ground (arith, ap (λ z. rest (half || is_half_open z)) e, r))

  present_names-SameStates :
      (now : ℕ) (keys keys' : Dict String Key) (xs : List String)
      → SameStates now keys keys'
      → present_names keys' xs ≡ present_names keys xs
  unfolding present_names
  present_names-SameStates now keys keys' [] h = refl
  present_names-SameStates now keys keys' (x ∷ xs) h =
      ground (arith, h.same x, present_names-SameStates now keys keys' xs h)

  module _ (names : Names) (service_type : String) where
    identity_name-SameStates :
        (now : ℕ) (keys keys' : Dict String Key) (url key : String)
        → SameStates now keys keys'
        → identity_name c names service_type keys' url key
          ≡ identity_name c names service_type keys url key
    unfolding identity_name
    identity_name-SameStates now keys keys' url key h = ap first_name (
        present_names-SameStates now keys keys' (metrics_lookup_keys c names service_type url key)
          h)

    -- The state of one URL and API key: closed where there are no metrics.
    unfoldable pub pair_state : ℕ → Dict String Key → String × String → CircuitState
    pair_state now keys (url, key) = elim (identity_name c names service_type keys url key) [
      | none ↦ state_closed
      | some name ↦ elim (lookup name keys) [ none ↦ state_closed | some k ↦ state_at now k ]
    ]

    circuit_loop-verdict :
        (now : ℕ) (pairs : List (String × String)) (half : Bool) (keys keys' : Dict String Key)
        → SameStates now keys keys'
        → (circuit_loop c names service_type now pairs half keys').1
          ≡ channel_verdict (map (pair_state now keys) pairs) half
    unfolding circuit_loop pair_state state_at
    circuit_loop-verdict now [] half keys keys' h = refl
    circuit_loop-verdict now ((url, key) ∷ rest) half keys keys' h =
        elim (Option-cases (identity_name c names service_type keys url key)) [
          | inl e ↦ ground (arith, identity_name-SameStates now keys keys' url key h, e)
          | inr (name, e) ↦ elim (Option-cases (lookup name keys')) [
            | inl n ↦
                ground (arith, identity_name-SameStates now keys keys' url key h, e, n, h.same name)
            | inr (k, l) ↦ elim (Option-cases (lookup name keys)) [
              | inl n ↦ ground (arith, h.same name, l, n)
              | inr (k0, l0) ↦
                  rw
                    (
                      circuit_loop,
                      pair_state,
                      identity_name-SameStates now keys keys' url key h,
                      e,
                      l,
                      l0,
                    )
                    (chosen-SameStates now k k0
                      (insert name (advance_circuit_state_if_due c now k) keys')
                      (circuit_loop c names service_type now rest
                        (half || is_half_open (state_at now k))
                        (insert name (advance_circuit_state_if_due c now k) keys'))
                      (channel_verdict (map (pair_state now keys) rest)) half
                      (state_at-same now name k k0 keys keys' h l l0)
                      (circuit_loop-verdict now rest (half || is_half_open (state_at now k)) keys
                        (insert name (advance_circuit_state_if_due c now k) keys')
                        (advance-SameStates now name k keys keys' h l)))
            ]
          ]
        ]

    -- For whatever metrics `keys` there are, the circuit state of a channel is closed if the identity of
    -- one of its URL and API key pairs is closed or has no metrics, else half-open if one of them is
    -- half-open, and else open: the changes that the loop writes on its way change no later reading.
    pub channel_circuit_state-verdict :
        (now : ℕ) (urls api_keys : List String) (keys : Dict String Key)
        → (channel_circuit_state c names service_type now urls api_keys keys).1
          ≡ channel_verdict (map (pair_state now keys) (url_key_pairs urls api_keys)) false
    unfolding channel_circuit_state
    channel_circuit_state-verdict now urls api_keys keys =
        circuit_loop-verdict now (url_key_pairs urls api_keys) false keys keys
          (record { same = λ name. refl })
