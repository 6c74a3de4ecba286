-- ===== src/Wa/Client/Delivery.antt =====
-- internal/wa/dispatcher.go: the channels after a fan-out, and the list of subscribers.
use whatsapp_mcp_docker.Base.{
  ℕ, ◌≡◌, refl, ap, ◌∙◌, inl, inr, Bool, true, false, ◌||◌, some, List, [], ◌∷◌, ◌++◌, arith, leb,
  ◌==◌, if◌then◌else◌, Bool-cases, length,
}
use mathlib.Core.Path.{fun_ext}
use whatsapp_mcp_docker.Wa.Events.{Event}
use whatsapp_mcp_docker.Wa.Client.{Channel, capacity, send, send_all, remove_first}

abbrev pub member : ℕ → List ℕ → Bool
member s [] = false
member s (x ∷ xs) = if x == s then true else member s xs

-- No subscriber is listed twice.
abbrev pub Distinct : List ℕ → Type 0
Distinct [] = Unit
Distinct (x ∷ xs) = (member x xs ≡ false) × Distinct xs

-- A channel with room takes the event at its end; a full one is left as it is.
abbrev pub deliver : Event → Channel → Channel
deliver evt ch =
    if leb capacity (length ch.queue) then ch else record ch { queue = ch.queue ++ evt ∷ [] }

abbrev pub deliver_all : Event → List ℕ → (ℕ → Channel) → ℕ → Channel
deliver_all evt subs f j = if member j subs then deliver evt (f j) else f j

pub member-append : (s x : ℕ) (xs : List ℕ) → member s (xs ++ x ∷ []) ≡ (member s xs || x == s)
member-append s x [] = ground arith
member-append s x (y ∷ xs) = ground (arith, member-append s x xs)

pub member-remove_first :
    (j s : ℕ) (xs : List ℕ)
    → Distinct xs
    → member j (remove_first s xs) ≡ (if s == j then false else member j xs)
unfolding remove_first
member-remove_first j s [] d = ground arith
member-remove_first j s (x ∷ xs) d = ground (arith, member-remove_first j s xs)

pub Distinct-append :
    (x : ℕ) (xs : List ℕ) → Distinct xs → member x xs ≡ false → Distinct (xs ++ x ∷ [])
Distinct-append x [] d h = (refl, tt)
Distinct-append x (y ∷ xs) d h =
    (ground (arith, member-append y x xs), Distinct-append x xs d.1 (ground arith))

pub Distinct-remove_first : (s : ℕ) (xs : List ℕ) → Distinct xs → Distinct (remove_first s xs)
unfolding remove_first
Distinct-remove_first s [] d = tt
Distinct-remove_first s (x ∷ xs) d = elim (Bool-cases (x == s)) [
  | inl e ↦ rw e d.1
  | inr e ↦ rw e (ground (arith, member-remove_first x s xs), Distinct-remove_first s xs d.1)
]

send_open :
    (f : ℕ → Channel) (s : ℕ) (evt : Event)
    → (f s).closed ≡ false
    → send f s evt ≡ some (deliver_all evt (s ∷ []) f)
unfolding send
send_open f s evt h = elim (Bool-cases (leb capacity (length (f s).queue))) [
  | inl e ↦ rw (h, e) (ap some (fun_ext λ j. ground arith))
  | inr e ↦ rw (h, e) (ap some (fun_ext λ j. ground arith))
]

pub send_all_lem :
    (f : ℕ → Channel) (subs : List ℕ) (evt : Event)
    → Distinct subs
    → ((s : ℕ) → member s subs ≡ true → (f s).closed ≡ false)
    → send_all f subs evt ≡ some (deliver_all evt subs f)
unfolding send_all
send_all_lem f [] evt d o = refl
send_all_lem f (s ∷ rest) evt d o =
    rw (send_open f s evt (o s (ground arith)), send_all)
      (send_all_lem (deliver_all evt (s ∷ []) f) rest evt d.1 (λ j m. ground (arith, o j))
        ∙ ap some (fun_ext λ j. ground arith))
