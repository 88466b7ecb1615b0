-- ===== src/Ip/AddrIter/Run.antt =====
-- All that an iterator gives, against the addresses of its range that are not ignored.
use native.Mathlib.Decide.{dec_le}
use netmirage.Prelude.{
  ℕ, zero, suc, ◌+◌, ◌-◌, ◌^◌, ◌≤◌, ◌<◌, ◌≡◌, refl, ap, ap₂, sym, ◌∙◌, true, false, leb, List, [],
  ◌∷◌, All, arith, lt→ltb, le→ltb_false, le→leb, lt→leb_false,
}
use netmirage.Ip.Order.{ntohl, ntohl-htonl}
use netmirage.Ip.AddrIter.{
  IgnoreRange, Ip4Iter, skip_ignored, ip4_iter_next, ip4_iter_addr, addresses,
}
use netmirage.Ip.AddrIter.Sorted.{IsSorted}
use netmirage.Ip.AddrIter.Next.{Ready, Ahead, IsProper, Skipped, skip-Skipped}
use netmirage.Ip.AddrIter.Spec.{
  free_addresses, free_addresses-cons, free_addresses_skip, free_addresses_same,
}

-- What holds between two calls.
pub record IsReady (it : Ip4Iter) : Type 0 where
  pub sorted : IsSorted it.ignores
  pub proper : All IsProper it.ignores
  pub ready : Ready false it.next_addr it.ignores
  pub word : it.final_addr < 2 ^ 32

Ahead-Ready :
    (addr : ℕ) (rs : List IgnoreRange) → All IsProper rs → Ahead addr rs → Ready false (addr + 1) rs
Ahead-Ready addr [] proper ahead = tt
Ahead-Ready addr (r ∷ rs) proper ahead = omega arith

pub addr_after :
    (it : Ip4Iter) (a : ℕ) → it.next_addr ≡ a + 1 → a < 2 ^ 32 → ntohl (ip4_iter_addr it) ≡ a
unfolding ip4_iter_addr
addr_after it a e h = ntohl-htonl _ (omega arith) ∙ omega arith

pub next_exhausted : (it : Ip4Iter) → it.final_addr < it.next_addr → ip4_iter_next it ≡ (it, false)
unfolding ip4_iter_next
next_exhausted it h = rw (lt→ltb it.final_addr it.next_addr h)

abbrev pub advanced : Ip4Iter → Ip4Iter
advanced it =
    let out = skip_ignored false it.next_addr it.ignores in
    record it { next_addr = out.0 + 1; ignores = out.1 }

pub next_advances :
    (it : Ip4Iter)
    → it.next_addr ≤ it.final_addr
    → ip4_iter_next it
      ≡ (advanced it, leb (skip_ignored false it.next_addr it.ignores).0 it.final_addr)
unfolding ip4_iter_next
next_advances it h = rw (le→ltb_false it.final_addr it.next_addr h)

-- Advancing keeps what holds between two calls.
pub advanced-IsReady : {it : Ip4Iter} → IsReady it → IsReady (advanced it)
advanced-IsReady {it} v =
    let s = skip-Skipped false it.next_addr it.ignores v.sorted v.proper v.ready in
    record {
      sorted = s.sorted;
      proper = s.proper;
      ready = Ahead-Ready _ _ s.proper s.ahead;
      word = v.word;
    }

pub addresses-none :
    (calls : ℕ) (it it' : Ip4Iter) → ip4_iter_next it ≡ (it', false) → addresses (suc calls) it ≡ []
unfolding addresses
addresses-none calls it it' e = rw e

pub addresses-some :
    (calls : ℕ) (it it' : Ip4Iter)
    → ip4_iter_next it ≡ (it', true)
    → addresses (suc calls) it ≡ ntohl (ip4_iter_addr it') ∷ addresses calls it'
unfolding addresses
addresses-some calls it it' e = rw e

pub free_addresses-zero : (rs : List IgnoreRange) (n lo : ℕ) → n ≡ 0 → free_addresses rs n lo ≡ []
unfolding free_addresses
free_addresses-zero rs zero lo e = refl
free_addresses-zero rs (suc n) lo e = absurd (omega arith)

-- All the addresses left, when the loops have stopped at `addr`.
free_after :
    (rs : List IgnoreRange) (lo final : ℕ) (out : ℕ × List IgnoreRange)
    → Skipped lo rs out
    → out.0 ≤ final
    → free_addresses rs (final + 1 - lo) lo
      ≡ out.0 ∷ free_addresses out.1 (final + 1 - (out.0 + 1)) (out.0 + 1)
free_after rs lo final out s h =
    free_addresses_skip rs (out.0 - lo) (suc (final - out.0)) (final + 1 - lo) lo out.0
      (omega (arith, s.forward)) (omega (arith, s.forward)) s.passed
    ∙ free_addresses-cons rs (final - out.0) out.0 s.free
    ∙ ap (λ l. out.0 ∷ l)
        (free_addresses_same rs out.1 (final - out.0) (out.0 + 1) (λ a low. s.kept a (omega arith))
          ∙ ap (λ (n : ℕ). free_addresses out.1 n (out.0 + 1)) (omega arith))

free_exhausted :
    (rs : List IgnoreRange) (lo final : ℕ) (out : ℕ × List IgnoreRange)
    → Skipped lo rs out
    → final < out.0
    → lo ≤ final
    → free_addresses rs (final + 1 - lo) lo ≡ []
free_exhausted rs lo final out s h le =
    free_addresses_skip rs (final + 1 - lo) 0 (final + 1 - lo) lo (final + 1) (omega arith)
      (omega arith) (λ a low high. s.passed a low (omega arith))
    ∙ free_addresses-zero rs 0 (final + 1) refl

pub addresses-eq-free :
    (calls : ℕ) (it : Ip4Iter)
    → IsReady it
    → it.final_addr + 1 - it.next_addr < calls
    → addresses calls it ≡ free_addresses it.ignores (it.final_addr + 1 - it.next_addr) it.next_addr
addresses-eq-free zero it v h = absurd (omega arith)
addresses-eq-free (suc calls) it v h = elim (dec_le it.next_addr it.final_addr) [
  | no gt ↦
      addresses-none calls it it (next_exhausted it (omega arith))
      ∙ sym (free_addresses-zero it.ignores _ it.next_addr (omega arith))
  | yes le ↦
      let out = skip_ignored false it.next_addr it.ignores in
      let s = skip-Skipped false it.next_addr it.ignores v.sorted v.proper v.ready in
      elim (dec_le out.0 it.final_addr) [
        | yes inside ↦
            addresses-some calls it (advanced it)
              (next_advances it le ∙ ap (λ b. (advanced it, b)) (le→leb out.0 it.final_addr inside))
            ∙ ap₂ ◌∷◌ (addr_after (advanced it) out.0 refl (omega (arith, v.word))) (
                addresses-eq-free calls (advanced it) (advanced-IsReady v)
                  (omega (arith, s.forward)))
            ∙ sym (free_after it.ignores it.next_addr it.final_addr out s inside)
        | no beyond ↦
            addresses-none calls it (advanced it) (
              next_advances it le
              ∙ ap (λ b. (advanced it, b)) (lt→leb_false out.0 it.final_addr (omega arith)))
            ∙ sym (free_exhausted it.ignores it.next_addr it.final_addr out s (omega arith) le)
      ]
]
