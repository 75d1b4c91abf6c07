-- ===== src/Client/Options.antt =====
-- client/client.go: which options `New` accepts, and what they set.
use secrets_engine.Client.{
  ClientOption, with_socket_path, with_dial_context, with_timeout, with_response_timeout, Config,
  Settings, default_request_timeout, default_response_timeout, config, apply_option, apply_options,
  settings, new_client, dial_or_default,
}
use secrets_engine.Prelude.{
  ◌≡◌, refl, List, [], ◌∷◌, Option, none, some, Result, ok, err, ◌>>=◌, All,
}
use secrets_engine.Text.{Bytes}
use secrets_engine.Text.Decimal.{ℤ, pos, negsuc}

module _ {D : Type 0} where
  -- An option that is right by itself.
  abbrev pub IsAccepted : ClientOption D → Type 0
  IsAccepted (with_socket_path []) = ⊥
  IsAccepted (with_socket_path (b ∷ path)) = Unit
  IsAccepted (with_dial_context d) = Unit
  IsAccepted (with_timeout (pos n)) = Unit
  IsAccepted (with_timeout (negsuc n)) = ⊥
  IsAccepted (with_response_timeout (pos n)) = Unit
  IsAccepted (with_response_timeout (negsuc n)) = ⊥

  abbrev pub IsNoDial : ClientOption D → Type 0
  IsNoDial (with_socket_path path) = ⊥
  IsNoDial (with_dial_context d) = ⊥
  IsNoDial (with_timeout t) = Unit
  IsNoDial (with_response_timeout t) = Unit

  -- No option for dialling follows one that has chosen how to dial.
  abbrev pub ChoosesOnce : List (ClientOption D) → Type 0
  ChoosesOnce [] = Unit
  ChoosesOnce (with_socket_path path ∷ os) = All IsNoDial os
  ChoosesOnce (with_dial_context none ∷ os) = ChoosesOnce os
  ChoosesOnce (with_dial_context (some d) ∷ os) = All IsNoDial os
  ChoosesOnce (with_timeout t ∷ os) = ChoosesOnce os
  ChoosesOnce (with_response_timeout t ∷ os) = ChoosesOnce os

  -- The timeout of the last option that has one.
  abbrev pub last_timeout : ℤ → List (ClientOption D) → ℤ
  last_timeout r [] = r
  last_timeout r (with_socket_path path ∷ os) = last_timeout r os
  last_timeout r (with_dial_context d ∷ os) = last_timeout r os
  last_timeout r (with_timeout t ∷ os) = last_timeout t os
  last_timeout r (with_response_timeout t ∷ os) = last_timeout r os

  abbrev pub last_response_timeout : ℤ → List (ClientOption D) → ℤ
  last_response_timeout s [] = s
  last_response_timeout s (with_socket_path path ∷ os) = last_response_timeout s os
  last_response_timeout s (with_dial_context d ∷ os) = last_response_timeout s os
  last_response_timeout s (with_timeout t ∷ os) = last_response_timeout s os
  last_response_timeout s (with_response_timeout t ∷ os) = last_response_timeout t os

  -- The options that may follow a choice of the dial function.
  abbrev pub MayFollow : Option D → List (ClientOption D) → Type 0
  MayFollow none os = ChoosesOnce os
  MayFollow (some d) os = All IsNoDial os

module _ {D : Type 0} (dial_from_path : Bytes → D) (daemon_socket_path : Bytes) where
  -- The dial function of the first option that chooses one.
  abbrev pub first_dial : Option D → List (ClientOption D) → Option D
  first_dial (some d) os = some d
  first_dial none [] = none
  first_dial none (with_socket_path path ∷ os) = some (dial_from_path path)
  first_dial none (with_dial_context none ∷ os) = first_dial none os
  first_dial none (with_dial_context (some d) ∷ os) = some d
  first_dial none (with_timeout t ∷ os) = first_dial none os
  first_dial none (with_response_timeout t ∷ os) = first_dial none os

  apply_options_lem :
      (os : List (ClientOption D)) (o : Option D) (r s : ℤ)
      → All IsAccepted os
      → MayFollow o os
      → apply_options dial_from_path daemon_socket_path os
          (config dial_from_path daemon_socket_path o r s)
        ≡ ok (
            config dial_from_path daemon_socket_path
              (first_dial o os)
              (last_timeout r os)
              (last_response_timeout s os))
  unfolding apply_options apply_option
  apply_options_lem [] none r s a m = refl
  apply_options_lem [] (some d) r s a m = refl
  apply_options_lem (with_socket_path [] ∷ os) o r s a m = absurd a.0
  apply_options_lem (with_socket_path (b ∷ path) ∷ os) (some d) r s a m = absurd m.0
  apply_options_lem (with_socket_path (b ∷ path) ∷ os) none r s a m =
      apply_options_lem os (some _) r s a.1 m
  apply_options_lem (with_dial_context d ∷ os) (some e) r s a m = absurd m.0
  apply_options_lem (with_dial_context none ∷ os) none r s a m = apply_options_lem os none r s a.1 m
  apply_options_lem (with_dial_context (some d) ∷ os) none r s a m =
      apply_options_lem os (some d) r s a.1 m
  apply_options_lem (with_timeout (pos n) ∷ os) none r s a m =
      apply_options_lem os none (pos n) s a.1 m
  apply_options_lem (with_timeout (pos n) ∷ os) (some d) r s a m =
      apply_options_lem os (some d) (pos n) s a.1 m.1
  apply_options_lem (with_timeout (negsuc n) ∷ os) o r s a m = absurd a.0
  apply_options_lem (with_response_timeout (pos n) ∷ os) none r s a m =
      apply_options_lem os none r (pos n) a.1 m
  apply_options_lem (with_response_timeout (pos n) ∷ os) (some d) r s a m =
      apply_options_lem os (some d) r (pos n) a.1 m.1
  apply_options_lem (with_response_timeout (negsuc n) ∷ os) o r s a m = absurd a.0

  apply_options-ok :
      (os : List (ClientOption D)) (o : Option D) (r s : ℤ) (c : Config D)
      → apply_options dial_from_path daemon_socket_path os
          (config dial_from_path daemon_socket_path o r s)
        ≡ ok c
      → All IsAccepted os × MayFollow o os
  unfolding apply_options apply_option
  apply_options-ok [] none r s c e = (tt, tt)
  apply_options-ok [] (some d) r s c e = (tt, tt)
  apply_options-ok (with_socket_path [] ∷ os) o r s c e = cc
  apply_options-ok (with_socket_path (b ∷ path) ∷ os) (some d) r s c e = cc
  apply_options-ok (with_socket_path (b ∷ path) ∷ os) none r s c e =
      let h = apply_options-ok os (some _) r s c e in ((tt, h.0), h.1)
  apply_options-ok (with_dial_context d ∷ os) (some f) r s c e = cc
  apply_options-ok (with_dial_context none ∷ os) none r s c e =
      let h = apply_options-ok os none r s c e in ((tt, h.0), h.1)
  apply_options-ok (with_dial_context (some d) ∷ os) none r s c e =
      let h = apply_options-ok os (some d) r s c e in ((tt, h.0), h.1)
  apply_options-ok (with_timeout (pos n) ∷ os) none r s c e =
      let h = apply_options-ok os none (pos n) s c e in ((tt, h.0), h.1)
  apply_options-ok (with_timeout (pos n) ∷ os) (some d) r s c e =
      let h = apply_options-ok os (some d) (pos n) s c e in ((tt, h.0), (tt, h.1))
  apply_options-ok (with_timeout (negsuc n) ∷ os) o r s c e = cc
  apply_options-ok (with_response_timeout (pos n) ∷ os) none r s c e =
      let h = apply_options-ok os none r (pos n) c e in ((tt, h.0), h.1)
  apply_options-ok (with_response_timeout (pos n) ∷ os) (some d) r s c e =
      let h = apply_options-ok os (some d) r (pos n) c e in ((tt, h.0), (tt, h.1))
  apply_options-ok (with_response_timeout (negsuc n) ∷ os) o r s c e = cc

bind_ok :
    {E A B : Type 0} (r : Result E A) (f : A → B) (b : B)
    → (r >>= (λ a. ok (f a))) ≡ ok b
    → (a : A) × (r ≡ ok a)
bind_ok (err x) f b e = cc
bind_ok (ok a) f b e = (a, refl)

-- If each option is right by itself and none for dialling follows one that has chosen how to dial, `New`
-- succeeds, with the chosen way to dial, or the path of the daemon, and the last of the timeouts of each kind.
pub new_client_lem :
    {D : Type 0} (dial_from_path : Bytes → D) (daemon_socket_path : Bytes)
    (os : List (ClientOption D))
    → All IsAccepted os
    → ChoosesOnce os
    → new_client dial_from_path daemon_socket_path os
      ≡ ok (record {
        dial =
            dial_or_default dial_from_path daemon_socket_path
              (first_dial dial_from_path daemon_socket_path none os);
        timeout = last_timeout default_request_timeout os;
        response_header_timeout = last_response_timeout default_response_timeout os;
      })
unfolding new_client
new_client_lem dial_from_path daemon_socket_path os a m =
    rw
      (apply_options_lem dial_from_path daemon_socket_path os none default_request_timeout
        default_response_timeout a m)
      refl

-- If `New` succeeds, each option is right by itself, and none for dialling follows one that has chosen how to
-- dial.
pub new_client-ok :
    {D : Type 0} (dial_from_path : Bytes → D) (daemon_socket_path : Bytes)
    (os : List (ClientOption D)) (s : Settings D)
    → new_client dial_from_path daemon_socket_path os ≡ ok s
    → All IsAccepted os × ChoosesOnce os
unfolding new_client
new_client-ok dial_from_path daemon_socket_path os s e =
    let (c, h) = bind_ok _ (settings dial_from_path daemon_socket_path) s e in
    apply_options-ok dial_from_path daemon_socket_path os none default_request_timeout
      default_response_timeout c h
