-- ===== src/Reader/Consume.antt =====
-- src/frame.cpp: the readers never leave more bytes than they are given.
use mathlib.Core.Bool.{xor}
use libdwarfpp.Base.{ℕ, ◌+◌, ◌*◌, ◌≤◌, ◌≢◌, arith, Bool, true, false, not, ◌&&◌, ◌||◌, inl, inr}
use libdwarfpp.Base.{List, [], ◌∷◌, bit_and, bit_or, length}
use libdwarfpp.Base.{
  Outcome, ok, err, assertion, out_of_fuel, ◌>>=◌, guard, Bool-cases, ltb, ◌==◌, if◌then◌else◌,
}
use libdwarfpp.Reader.{Host, uleb_loop, read_uleb128, read_sleb128, read_addr}
use libdwarfpp.Reader.{
  read_2byte_le, read_4byte_le, read_8byte_le, read_2byte_be, read_4byte_be, read_8byte_be,
}
use libdwarfpp.Reader.Leb.{shl_int-cases}

-- A reader that is given `n` bytes leaves no more than that, and does not run out of fuel.
abbrev pub Consumes {ℓ} : {A : Type ℓ} → ℕ → Outcome (A × List ℕ) → Type 0
Consumes n (ok (a, rest)) = length rest ≤ n
Consumes n (err e) = e ≢ out_of_fuel

-- The same of a value that is read from no bytes.
abbrev pub Ends {ℓ} : {A : Type ℓ} → Outcome A → Type 0
Ends (ok a) = Unit {0}
Ends (err e) = e ≢ out_of_fuel

pub Consumes-bind {ℓ κ} :
    {A : Type ℓ} {B : Type κ} (n : ℕ) (m : Outcome (A × List ℕ))
    (f : A × List ℕ → Outcome (B × List ℕ))
    → Consumes n m
    → ((a : A) (rest : List ℕ) → length rest ≤ n → Consumes n (f (a, rest)))
    → Consumes n (m >>= f)
Consumes-bind n (ok (a, rest)) f h k = k a rest h
Consumes-bind n (err e) f h k = h

pub Ends-bind {ℓ κ} :
    {A : Type ℓ} {B : Type κ} (n : ℕ) (m : Outcome A) (f : A → Outcome (B × List ℕ))
    → Ends m
    → ((a : A) → Consumes n (f a))
    → Consumes n (m >>= f)
Ends-bind n (ok a) f h k = k a
Ends-bind n (err e) f h k = h

pub Consumes-mono {ℓ} :
    {A : Type ℓ} (n m : ℕ) (r : Outcome (A × List ℕ)) → n ≤ m → Consumes n r → Consumes m r
Consumes-mono n m (ok (a, rest)) h c = omega arith
Consumes-mono n m (err e) h c = c

pub guard-Ends : (b : Bool) → Ends (guard b assertion)
guard-Ends true = tt
guard-Ends false = λ e. cc

abbrev LoopConsumes : ℕ → Outcome (ℕ × ℕ × List ℕ) → Type 0
LoopConsumes n (ok (v, k, rest)) = length rest ≤ n
LoopConsumes n (err e) = e ≢ out_of_fuel

LoopConsumes-mono :
    (n m : ℕ) (r : Outcome (ℕ × ℕ × List ℕ)) → n ≤ m → LoopConsumes n r → LoopConsumes m r
LoopConsumes-mono n m (ok (v, k, rest)) h c = omega arith
LoopConsumes-mono n m (err e) h c = c

uleb_loop-LoopConsumes : (bs : List ℕ) (w n : ℕ) → LoopConsumes (length bs) (uleb_loop bs w n)
unfolding uleb_loop
uleb_loop-LoopConsumes [] w n = λ e. cc
uleb_loop-LoopConsumes (b ∷ bs) w n = elim (shl_int-cases (bit_and b 0x7f) (7 * n)) [
  | inl e ↦ rw e (λ p. cc)
  | inr (d, e) ↦ rw e (elim (Bool-cases (bit_and b 0x80 == 0)) [
    | inl last ↦ rw last (omega arith)
    | inr more ↦ rw more (
        LoopConsumes-mono (length bs) _ (uleb_loop bs (bit_or w d) (n + 1)) (omega arith)
          (uleb_loop-LoopConsumes bs (bit_or w d) (n + 1)))
  ])
]

pub read_uleb128-Consumes : (cur : List ℕ) → Consumes (length cur) (read_uleb128 cur)
unfolding read_uleb128
read_uleb128-Consumes cur = finish (uleb_loop cur 0 0) (uleb_loop-LoopConsumes cur 0 0)
  where
    finish :
        (r : Outcome (ℕ × ℕ × List ℕ))
        → LoopConsumes (length cur) r
        → Consumes
            (length cur)
            (r >>= λ t. guard (ltb (7 * t.1) 64) assertion >>= λ _. ok (t.0, t.2))
    finish (ok (v, k, rest)) h =
        Ends-bind (length cur) (guard (ltb (7 * k) 64) assertion) _ (guard-Ends _) (λ _. h)
    finish (err e) h = h

pub read_sleb128-Consumes : (cur : List ℕ) → Consumes (length cur) (read_sleb128 cur)
unfolding read_sleb128
read_sleb128-Consumes cur =
    Consumes-bind (length cur) (read_uleb128 cur) _ (read_uleb128-Consumes cur) (λ v rest h. h)

pub read_2byte_le-Consumes : (cur : List ℕ) → Consumes (length cur) (read_2byte_le cur)
unfolding read_2byte_le
read_2byte_le-Consumes [] = λ e. cc
read_2byte_le-Consumes (a ∷ []) = λ e. cc
read_2byte_le-Consumes (a ∷ b ∷ cur) = omega arith

pub read_2byte_be-Consumes : (cur : List ℕ) → Consumes (length cur) (read_2byte_be cur)
unfolding read_2byte_be
read_2byte_be-Consumes [] = λ e. cc
read_2byte_be-Consumes (a ∷ []) = λ e. cc
read_2byte_be-Consumes (a ∷ b ∷ cur) = omega arith

pub read_4byte_le-Consumes : (cur : List ℕ) → Consumes (length cur) (read_4byte_le cur)
unfolding read_4byte_le
read_4byte_le-Consumes [] = λ e. cc
read_4byte_le-Consumes (a ∷ []) = λ e. cc
read_4byte_le-Consumes (a ∷ b ∷ []) = λ e. cc
read_4byte_le-Consumes (a ∷ b ∷ c ∷ []) = λ e. cc
read_4byte_le-Consumes (a ∷ b ∷ c ∷ d ∷ cur) = omega arith

pub read_4byte_be-Consumes : (cur : List ℕ) → Consumes (length cur) (read_4byte_be cur)
unfolding read_4byte_be
read_4byte_be-Consumes [] = λ e. cc
read_4byte_be-Consumes (a ∷ []) = λ e. cc
read_4byte_be-Consumes (a ∷ b ∷ []) = λ e. cc
read_4byte_be-Consumes (a ∷ b ∷ c ∷ []) = λ e. cc
read_4byte_be-Consumes (a ∷ b ∷ c ∷ d ∷ cur) = omega arith

pub read_8byte_le-Consumes : (cur : List ℕ) → Consumes (length cur) (read_8byte_le cur)
unfolding read_8byte_le
read_8byte_le-Consumes (a ∷ b ∷ c ∷ d ∷ e ∷ f ∷ g ∷ h ∷ cur) = omega arith
read_8byte_le-Consumes _ = λ e. cc

pub read_8byte_be-Consumes : (cur : List ℕ) → Consumes (length cur) (read_8byte_be cur)
unfolding read_8byte_be
read_8byte_be-Consumes (a ∷ b ∷ c ∷ d ∷ e ∷ f ∷ g ∷ h ∷ cur) = omega arith
read_8byte_be-Consumes _ = λ e. cc

pub if-Consumes {ℓ} :
    {A : Type ℓ} (n : ℕ) (b : Bool) (x y : Outcome (A × List ℕ))
    → Consumes n x
    → Consumes n y
    → Consumes n (if b then x else y)
if-Consumes n true x y hx hy = hx
if-Consumes n false x y hx hy = hy

pub read_addr-Consumes :
    (host : Host) (addrlen : ℕ) (cur : List ℕ) (order : Bool)
    → Consumes (length cur) (read_addr host addrlen cur order)
unfolding read_addr
read_addr-Consumes host addrlen cur order =
    Ends-bind (length cur) (guard (addrlen == 4 || addrlen == 8) assertion) _ (guard-Ends _) λ _.
      let be : Bool = xor host.host_is_little_endian order in
      let le8 : Outcome (ℕ × List ℕ) =
        if not be && addrlen == 8 then read_8byte_le cur else err assertion in
      let le4 : Outcome (ℕ × List ℕ) = if not be && addrlen == 4 then read_4byte_le cur else le8 in
      let be8 : Outcome (ℕ × List ℕ) = if be && addrlen == 8 then read_8byte_be cur else le4 in
      if-Consumes (length cur) (be && addrlen == 4) (read_4byte_be cur) be8
        (read_4byte_be-Consumes cur)
        (if-Consumes (length cur) (be && addrlen == 8) (read_8byte_be cur) le4
          (read_8byte_be-Consumes cur)
          (if-Consumes (length cur) (not be && addrlen == 4) (read_4byte_le cur) le8
            (read_4byte_le-Consumes cur)
            (if-Consumes (length cur) (not be && addrlen == 8) (read_8byte_le cur) (err assertion)
              (read_8byte_le-Consumes cur) (λ e. cc))))
