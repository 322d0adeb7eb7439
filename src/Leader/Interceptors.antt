-- ===== src/Leader/Interceptors.antt =====
-- The two interceptors, and which RPCs go through the admission.
use ens_provider.Prelude.{◌≡◌, refl, ◌↔◌, ℕ, true, false, Option, none, Str, if◌then◌else◌}
use ens_provider.Config.{Config}
use ens_provider.Leader.{
  Leadership, Admission, turned_away, admitted, admit, is_admitted, allow_rpc, is_health_method,
  unavailable, handled, unary_interceptor, stream_interceptor,
}

-- A unary RPC of any service but health is handled, and bound to a term, exactly as it is admitted; a
-- stream is handled exactly where an RPC is admitted, and neither is handled otherwise. RPCs of the
-- health service are always handled.
pub interceptors-admit :
    (cfg : Config) (s : Leadership) (full_method : Str)
    → (is_health_method full_method ≡ false
        → ((o : Option ℕ)
            → (unary_interceptor cfg s full_method ≡ handled o) ↔ (admit cfg s ≡ admitted o))
          × ((stream_interceptor cfg s full_method ≡ unavailable) ↔ (admit cfg s ≡ turned_away))
          × ((unary_interceptor cfg s full_method ≡ unavailable) ↔ (admit cfg s ≡ turned_away)))
      × (is_health_method full_method ≡ true
          → (unary_interceptor cfg s full_method ≡ handled none)
            × (stream_interceptor cfg s full_method ≡ handled none))
unfolding unary_interceptor stream_interceptor allow_rpc
interceptors-admit cfg s full_method = (λ p. rw p (gate (admit cfg s)), λ p. rw p (refl, refl))
  where
    gate :
        (a : Admission)
        → ((o : Option ℕ)
            → (elim a [ turned_away ↦ unavailable | admitted t ↦ handled t ] ≡ handled o)
              ↔ (a ≡ admitted o))
          × (((if is_admitted a then handled none else unavailable) ≡ unavailable)
              ↔ (a ≡ turned_away))
          × ((elim a [ turned_away ↦ unavailable | admitted t ↦ handled t ] ≡ unavailable)
              ↔ (a ≡ turned_away))
    gate turned_away = (λ o. (λ e. cc, λ e. cc), (λ e. refl, λ e. refl), (λ e. refl, λ e. refl))
    gate (admitted t) = (λ o. (λ e. cc, λ e. cc), (λ e. cc, λ e. cc), (λ e. cc, λ e. cc))
