-- ===== src/Server/State/Clients.antt =====
-- host/src/network/server.cpp: how changes of the client map change its size and its paired clients.
use immersive.Base.{
  ◌==◌, All, Bool-cases, inl, inr, sym, ◌∙◌, some, ℕ, ◌+◌, ◌≡◌, ◌≤◌, refl, List, [], ◌∷◌, arith,
  if◌then◌else◌, length, ap,
}
use mathlib.Core.Path.{subst}
use mathlib.Core.Option.{some-injective}
use immersive.Server.State.{find_client, ClientState, change_client, erase_client, paired}

module _ {S : Type 0} where
  pub length-change_client :
      (id : ℕ) (f : ClientState S → ClientState S) (cs : List (ClientState S))
      → length (change_client id f cs) ≡ length cs
  unfolding change_client
  length-change_client id f [] = refl
  length-change_client id f (c ∷ cs) = ground (arith, length-change_client id f cs)

  pub paired-change_client :
      (id : ℕ) (f : ClientState S → ClientState S) (cs : List (ClientState S))
      → ((c : ClientState S) → (f c).authed ≡ c.authed)
      → paired (change_client id f cs) ≡ paired cs
  unfolding change_client paired
  paired-change_client id f [] same = refl
  paired-change_client id f (c ∷ cs) same =
      ground (arith, same c, paired-change_client id f cs same)

  pub paired-change_client-le :
      (id : ℕ) (f : ClientState S → ClientState S) (cs : List (ClientState S))
      → paired (change_client id f cs) ≤ paired cs + 1
  unfolding change_client paired
  paired-change_client-le id f [] = omega arith
  paired-change_client-le id f (c ∷ cs) = ground (arith, paired-change_client-le id f cs)

  pub length-erase_client :
      (id : ℕ) (cs : List (ClientState S)) → length (erase_client id cs) ≤ length cs
  unfolding erase_client
  length-erase_client id [] = omega arith
  length-erase_client id (c ∷ cs) = ground (arith, length-erase_client id cs)

  pub paired-erase_client :
      (id : ℕ) (cs : List (ClientState S)) → paired (erase_client id cs) ≤ paired cs
  unfolding erase_client paired
  paired-erase_client id [] = omega arith
  paired-erase_client id (c ∷ cs) = ground (arith, paired-erase_client id cs)

  pub paired-cons :
      (c : ClientState S) (cs : List (ClientState S))
      → paired (c ∷ cs) ≡ (if c.authed then 1 else 0) + paired cs
  unfolding paired
  paired-cons c cs = refl

  pub paired_nil : (cs : List (ClientState S)) → cs ≡ [] → paired cs ≡ 0
  unfolding paired
  paired_nil cs e = ap paired e

  pub All-change_client :
      (P : ClientState S → Type 0) (id : ℕ) (f : ClientState S → ClientState S)
      (cs : List (ClientState S))
      → ((c : ClientState S) → P c → P (f c))
      → All P cs
      → All P (change_client id f cs)
  unfolding change_client
  All-change_client P id f [] keep h = tt
  All-change_client P id f (c ∷ cs) keep h = elim (Bool-cases (c.id == id)) [
    | inl here ↦ rw here (keep c h.0, h.1)
    | inr later ↦ rw later (h.0, All-change_client P id f cs keep h.1)
  ]

  pub All-erase_client :
      (P : ClientState S → Type 0) (id : ℕ) (cs : List (ClientState S))
      → All P cs
      → All P (erase_client id cs)
  unfolding erase_client
  All-erase_client P id [] h = tt
  All-erase_client P id (c ∷ cs) h = elim (Bool-cases (c.id == id)) [
    | inl here ↦ rw here h.1
    | inr later ↦ rw later (h.0, All-erase_client P id cs h.1)
  ]

  -- An entry that is found is one of the entries.
  pub found_in :
      (P : ClientState S → Type 0) (id : ℕ) (cs : List (ClientState S)) (c : ClientState S)
      → find_client id cs ≡ some c
      → All P cs
      → P c
  unfolding find_client
  found_in P id [] c e h = absurd (ground arith)
  found_in P id (d ∷ cs) c e h = elim (Bool-cases (d.id == id)) [
    | inl here ↦
        subst P
          (some-injective d c (sym (ap (λ b. if b then some d else find_client id cs) here) ∙ e))
          h.0
    | inr later ↦
        found_in P id cs c (sym (ap (λ b. if b then some d else find_client id cs) later) ∙ e) h.1
  ]
