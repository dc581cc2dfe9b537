-- ===== src/SdifV1/Request/Waits.antt =====
-- The waits of a request with no request in progress always end, whatever events arrive.
use phytium_sdk.Prelude.{
  ℕ, zero, suc, ◌+◌, ◌*◌, ◌/◌, ◌≤◌, ◌<◌, ◌≡◌, refl, ap, ◌∙◌, Bool, true, false, List, [], ◌∷◌, none,
  arith, Outcome, returns, ◌>>=◌, Safe, Safe-returns, if◌then◌else◌, ltb,
}
use phytium_sdk.SdifV2.Softc.{MmcReg, Errno, success, eio, ebusy}
use phytium_sdk.SdifV2.Poll.{card_busy_loop, polling_card_busy}
use phytium_sdk.SdifV1.Softc.{Softc}
use phytium_sdk.SdifV1.Finish.{
  Irq, irq_command_done, irq_data_done, irq_error, irq_card, interrupt, finish_command,
  command_done, data_done, error_occurred, handle_card_present,
}
use phytium_sdk.SdifV1.Poll.{deliver, request_done_loop, polling_request_done}

-- what the wait for SET_BLOCK_COUNT keeps
pub record Waits (s t : Softc) : Type 0 where
  pub no_request : t.req ≡ none
  pub same_mode : t.trans_mode ≡ s.trans_mode
  pub same_room : t.aligned_dma_buf_len ≡ s.aligned_dma_buf_len
  pub same_requests : t.requests ≡ s.requests

pub Waits-refl : (s : Softc) → s.req ≡ none → Waits s s
Waits-refl s e = record { no_request = e; same_mode = refl; same_room = refl; same_requests = refl }

pub Waits-trans : (s t u : Softc) → Waits s t → Waits t u → Waits s u
Waits-trans s t u a b = record {
  no_request = b.no_request;
  same_mode = ground (arith, a.same_mode, b.same_mode);
  same_room = ground (arith, a.same_room, b.same_room);
  same_requests = ground (arith, a.same_requests, b.same_requests);
}

-- the call returns, in a state that waits as `s` did
abbrev pub Keeps {ℓ} : {A : Type ℓ} → (A → Softc) → Softc → Outcome A → Type ℓ
Keeps {A = A} state s m = (o : A) × (m ≡ returns o) × Waits s (state o)

keeps {ℓ} :
    {A : Type ℓ} (state : A → Softc) (s : Softc) (m : Outcome A)
    → Safe m
    → ((o : A) → m ≡ returns o → Waits s (state o))
    → Keeps state s m
keeps state s m h k = let (o, e) = Safe-returns m h in (o, e, k o e)

pub bind-Keeps {ℓ κ} :
    {A : Type ℓ} {B : Type κ} (before : A → Softc) (after : B → Softc) (s : Softc) (m : Outcome A)
    (f : A → Outcome B)
    → Keeps before s m
    → ((o : A) → Waits s (before o) → Keeps after (before o) (f o))
    → Keeps after s (m >>= f)
bind-Keeps before after s m f (o, e, w) k =
    let (p, g, v) = k o w in (p, ap (λ x. x >>= f) e ∙ g, Waits-trans s (before o) (after p) w v)

choice-Keeps {ℓ} :
    {A : Type ℓ} (state : A → Softc) (s : Softc) (b c : Bool) (x y z : Outcome A)
    → Keeps state s x
    → (c ≡ false → Keeps state s y)
    → Keeps state s z
    → Keeps state s (if b then (if c then x else y) else z)
choice-Keeps state s true true x y z h k l = h
choice-Keeps state s true false x y z h k l = k refl
choice-Keeps state s false c x y z h k l = l

module _ (reg : MmcReg) where
  interrupt-Keeps : (i : Irq) (s : Softc) → s.req ≡ none → Keeps (λ t. t) s (interrupt reg i s)
  unfolding interrupt command_done data_done finish_command error_occurred handle_card_present
  interrupt-Keeps (irq_command_done a) s e =
      keeps (λ t. t) s (interrupt reg (irq_command_done a) s) (ground arith)
        (λ o h. record {
          no_request = ground arith;
          same_mode = ground arith;
          same_room = ground arith;
          same_requests = ground arith;
        })
  interrupt-Keeps (irq_data_done a) s e =
      keeps (λ t. t) s (interrupt reg (irq_data_done a) s) (ground arith)
        (λ o h. record {
          no_request = ground arith;
          same_mode = ground arith;
          same_room = ground arith;
          same_requests = ground arith;
        })
  interrupt-Keeps irq_error s e = (s, refl, Waits-refl s e)
  interrupt-Keeps (irq_card stopped present) s e =
      keeps (λ t. t) s (interrupt reg (irq_card stopped present) s) (ground arith)
        (λ o h. record {
          no_request = ground arith;
          same_mode = ground arith;
          same_room = ground arith;
          same_requests = ground arith;
        })

  deliver-Keeps : (is : List Irq) (s : Softc) → s.req ≡ none → Keeps (λ t. t) s (deliver reg is s)
  unfolding deliver
  deliver-Keeps [] s e = (s, refl, Waits-refl s e)
  deliver-Keeps (i ∷ is) s e =
      bind-Keeps (λ t. t) (λ t. t) s (interrupt reg i s) (deliver reg is) (interrupt-Keeps i s e)
        (λ t w. deliver-Keeps is t w.no_request)

  request_done_loop-Keeps :
      (fuel : ℕ) (irqs : ℕ → List Irq) (t w : ℕ) (s : Softc)
      → s.req ≡ none
      → w ≤ t + 1
      → t + 1 < w + fuel
      → Keeps (λ o. o.1) s (request_done_loop fuel reg irqs t w s)
  unfolding request_done_loop
  request_done_loop-Keeps zero irqs t w s e near enough = absurd (omega arith)
  request_done_loop-Keeps (suc fuel) irqs t w s e near enough =
      choice-Keeps (λ o. o.1) s s.req_pending (ltb t w) (returns (eio, s)) _ (returns (success, s))
        ((eio, s), refl, Waits-refl s e)
        (λ early.
          bind-Keeps (λ u. u) (λ o. o.1) s (deliver reg (irqs w) s)
            (request_done_loop fuel reg irqs t (suc w)) (deliver-Keeps (irqs w) s e)
            (λ u k.
              request_done_loop-Keeps fuel irqs t (suc w) u k.no_request (ground arith)
                (omega arith)))
        ((success, s), refl, Waits-refl s e)

  pub polling_request_done-Keeps :
      (irqs : ℕ → List Irq) (t : ℕ) (s : Softc)
      → s.req ≡ none
      → Keeps (λ o. o.1) s (polling_request_done reg irqs t s)
  unfolding polling_request_done
  polling_request_done-Keeps irqs t s e =
      request_done_loop-Keeps (t + 2) irqs t 0 s e (omega arith) (omega arith)

choice_ends :
    (b c : Bool) (m : Outcome Errno) (x y : Errno)
    → (b ≡ true → c ≡ false → (e : Errno) × (m ≡ returns e))
    → (e : Errno) × ((if b then (if c then returns x else m) else returns y) ≡ returns e)
choice_ends true true m x y h = (x, refl)
choice_ends true false m x y h = h refl refl
choice_ends false c m x y h = (y, refl)

card_busy_loop-answers :
    (fuel : ℕ) (busy : ℕ → Bool) (t k w : ℕ)
    → w ≡ k * 100
    → k ≤ t / 100 + 1
    → t / 100 + 1 < k + fuel
    → (e : Errno) × (card_busy_loop fuel busy t k w ≡ returns e)
unfolding card_busy_loop
card_busy_loop-answers zero busy t k w h near enough = absurd (omega arith)
card_busy_loop-answers (suc fuel) busy t k w h near enough =
    choice_ends (busy k) (ltb t w) (card_busy_loop fuel busy t (suc k) (w + 100)) ebusy success
      (λ b c.
        card_busy_loop-answers fuel busy t (suc k) (w + 100) (omega arith) (ground arith)
          (omega arith))

-- the wait for the card answers
pub polling_card_busy-answers :
    (busy : ℕ → Bool) (t : ℕ) → (e : Errno) × (polling_card_busy busy t ≡ returns e)
unfolding polling_card_busy
polling_card_busy-answers busy t =
    card_busy_loop-answers (t / 100 + 2) busy t 0 0 refl (omega arith) (omega arith)
