-- ===== src/Binary/Reads.antt =====
-- Rules for what a parser of Binary/Reader.antt reads: one for each way to build a parser.
use virt_warehouse_pro.Common.{
  ℕ, ◌+◌, ◌^◌, ◌≤◌, ◌<◌, ◌≡◌, refl, arith, List, [], ◌∷◌, ◌++◌, ◌∙◌, ap, sym, ok, length,
  length-append, length-drop, take, drop, drop-drop, take-append_length, drop-append_length,
  append_assoc, append-nil, All, Result, subst,
}
use virt_warehouse_pro.Bytes.Words.{
  Bytes, to_le_bytes, length-to_le_bytes, from_le_bytes-to_le_bytes,
}
use virt_warehouse_pro.Bytes.Utf8.{from_utf8}
use virt_warehouse_pro.Binary.Reader.{
  Reader, Parse, ◌>>=◌, pure, lift, take_bytes, number, count, string, repeat, new, done, whole,
}

-- What is still to be read.
abbrev pub ahead : Reader → Bytes
ahead r = drop r.cursor r.source

abbrev pub skip : Reader → ℕ → Reader
skip r n = record r { cursor = r.cursor + n }

pub record Fits (r : Reader) : Type 0 where
  pub inside : r.cursor ≤ length r.source
  pub small : length r.source < 2 ^ 64

-- In front of the bytes `bs`, whatever follows them, `p` returns `a` and moves behind them.
pub record Reads {A : Type 0} (p : Parse A) (a : A) (bs : Bytes) : Type 0 where
  pub at :
      (r : Reader) (rest : Bytes) → Fits r → ahead r ≡ bs ++ rest → p r ≡ ok (a, skip r (length bs))

module _ (r : Reader) (bs rest : Bytes) (fits : Fits r) (e : ahead r ≡ bs ++ rest) where
  room : r.cursor + length bs + length rest ≡ length r.source
  room = omega (
    arith,
    length-drop r.cursor r.source,
    ap (λ (t : Bytes). length t) e,
    length-append bs rest,
    fits.inside,
  )

  pub skip-Fits : Fits (skip r (length bs))
  skip-Fits = record { inside = omega (arith, room); small = fits.small }

  pub ahead-skip : ahead (skip r (length bs)) ≡ rest
  ahead-skip =
      sym (drop-drop r.cursor (length bs) (r.cursor + length bs) r.source refl)
      ∙ ap (drop (length bs)) e
      ∙ drop-append_length bs rest

  pub take_bytes_lem : take_bytes (length bs) r ≡ ok (bs, skip r (length bs))
  unfolding take_bytes
  take_bytes_lem = ground (arith, room, ap (take (length bs)) e, take-append_length bs rest)

skip-zero : (r : Reader) → skip r 0 ≡ r
skip-zero r = ap (λ (c : ℕ). record r { cursor = c }) (omega arith)

skip-skip : (r : Reader) (a b c : ℕ) → c ≡ a + b → skip (skip r a) b ≡ skip r c
skip-skip r a b c h = ap (λ (k : ℕ). record r { cursor = k }) (omega arith)

pub Reads-take_bytes : (bs : Bytes) (n : ℕ) → n ≡ length bs → Reads (take_bytes n) bs bs
Reads-take_bytes bs n h = record { at = λ r rest fits e. rw h (take_bytes_lem r bs rest fits e) }

module _ {A : Type 0} where
  pub Reads-pure : (a : A) → Reads (pure a) a []
  unfolding pure
  Reads-pure a = record { at = λ r rest fits e. ap (λ (s : Reader). ok (a, s)) (sym (skip-zero r)) }

  pub Reads-lift : (m : Result A) (a : A) → m ≡ ok a → Reads (lift m) a []
  unfolding lift
  Reads-lift m a h = record {
    at = λ r rest fits e. rw h (ap (λ (s : Reader). ok (a, s)) (sym (skip-zero r)));
  }

module _ {A B : Type 0} where
  pub Reads-bind :
      (p : Parse A) (f : A → Parse B) (a : A) (b : B) (bs cs : Bytes)
      → Reads p a bs
      → Reads (f a) b cs
      → Reads (p >>= f) b (bs ++ cs)
  unfolding ◌>>=◌
  Reads-bind p f a b bs cs h k = record {
    at = λ r rest fits e.
        let split : ahead r ≡ bs ++ (cs ++ rest) = e ∙ append_assoc bs cs rest in
        rw (h.at r (cs ++ rest) fits split, ◌>>=◌)
          (k.at (skip r (length bs)) rest (skip-Fits r bs (cs ++ rest) fits split)
              (ahead-skip r bs (cs ++ rest) fits split)
            ∙ ap (λ (s : Reader). ok (b, s))
                (skip-skip r (length bs) (length cs) (length (bs ++ cs)) (length-append bs cs)));
  }

-- The last step of a block: a value that is computed from what was read.
pub Reads-bind_last :
    {A B : Type 0} (p : Parse A) (f : A → Parse B) (a : A) (b : B) (bs : Bytes)
    → Reads p a bs
    → Reads (f a) b []
    → Reads (p >>= f) b bs
Reads-bind_last p f a b bs h k =
    subst (λ (t : Bytes). Reads (p >>= f) b t) (append-nil bs) (Reads-bind p f a b bs [] h k)

pub Reads-number : (w v : ℕ) → v < 256 ^ w → Reads (number w) v (to_le_bytes w v)
unfolding number
Reads-number w v h =
    Reads-bind_last _ _ (to_le_bytes w v) v _
      (Reads-take_bytes (to_le_bytes w v) w (sym (length-to_le_bytes w v)))
      (rw (from_le_bytes-to_le_bytes w v h) (Reads-pure v))

-- A string is its length in two bytes and its bytes.
abbrev pub string_bytes : Bytes → Bytes
string_bytes s = to_le_bytes 2 (length s) ++ s

abbrev pub IsString : Bytes → Type 0
IsString s = (length s < 2 ^ 16) × (from_utf8 s ≡ ok s)

pub Reads-string : (s : Bytes) → IsString s → Reads string s (string_bytes s)
unfolding string
Reads-string s h =
    Reads-bind _ _ (length s) s _ s (Reads-number 2 (length s) h.0)
      (Reads-bind_last _ _ s s s (Reads-take_bytes s _ refl) (Reads-lift _ s h.1))

pub Reads-count : (n : ℕ) → n ≤ 100_000 → Reads count n (to_le_bytes 4 n)
unfolding count
Reads-count n h =
    Reads-bind_last _ _ n n _ (Reads-number 4 n (omega arith)) (Reads-lift _ n (ground arith))

-- The bytes of a list of values, one after the other.
abbrev pub all_bytes : {A : Type 0} → (A → Bytes) → List A → Bytes
all_bytes enc [] = []
all_bytes enc (x ∷ xs) = enc x ++ all_bytes enc xs

module _ {A : Type 0} (p : Parse A) (enc : A → Bytes) (P : A → Type 0) where
  pub Reads-repeat :
      ((a : A) → P a → Reads p a (enc a))
      → (xs : List A) → All P xs
      → Reads (repeat (length xs) p) xs (all_bytes enc xs)
  unfolding repeat
  Reads-repeat each [] h = Reads-pure []
  Reads-repeat each (x ∷ xs) h =
      Reads-bind _ _ x (x ∷ xs) (enc x) _ (each x h.0)
        (Reads-bind_last _ _ xs (x ∷ xs) _ (Reads-repeat each xs h.1) (Reads-pure (x ∷ xs)))

done_lem : (r : Reader) → r.cursor ≡ length r.source → done r ≡ ok (tt, r)
unfolding done
done_lem r h = ground arith

-- A parser that reads the whole input, and then finds nothing left.
pub Reads-whole :
    {A : Type 0} (p : Parse A) (a : A) (bs : Bytes)
    → Reads p a bs
    → length bs < 2 ^ 64
    → whole p (new bs) ≡ ok (a, skip (new bs) (length bs))
unfolding whole ◌>>=◌ pure
Reads-whole p a bs h fits =
    rw
      (
        h.at (new bs) [] (record { inside = omega arith; small = fits }) (sym (append-nil bs)),
        ◌>>=◌,
        done_lem (skip (new bs) (length bs)) (omega arith),
        ◌>>=◌,
      )
      refl
