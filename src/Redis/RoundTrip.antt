-- ===== src/Redis/RoundTrip.antt =====
-- The reader against the protocol: every well-formed reply is read back whole, wherever it stands.
use fastapi_turbo.Prelude.Int.{ℤ, pos, ◌-ℤ◌, pos_sub}
use fastapi_turbo.Prelude.Decimal.{show, show-IsDigit, int_of-show}
use fastapi_turbo.Prelude.{
  ℕ, zero, suc, ◌+◌, ◌≤◌, ◌<◌, ◌≡◌, refl, sym, ap, ◌∙◌, Bool, List, [], ◌∷◌, ◌++◌, some, arith,
  length, length-append, ltb, ltb-false, false, ◌-◌, drop, All,
}
use fastapi_turbo.Redis.Reader.{
  Value, Values, parsed, filled, items, parse, parse_kind, parse_bulk, parse_array, close_array,
  parse_int, with_item, filled_from, got, gets, Got,
}
use fastapi_turbo.Redis.Wire.{
  Reply, simple, failure, number, null_bulk, bulk, null_array, replies, Replies, nil, cons, crlf,
  show_int, count, render, render_all, meaning, meanings, depth, depth_all, NotCr, IsWellFormed,
  AreWellFormed,
}
use fastapi_turbo.Redis.Header.{
  NotCr-show_int, NotCr-digits, int_of-show_int, int_of-minus_one, parse_header, At-header,
}
use fastapi_turbo.Redis.Layout.{At, At-start, At-append, index-At, slice-At}

module _ (decodable : List ℕ → Bool) where
  -- The reply is read whole, and `rest` stands behind it.
  record Reads (f : ℕ) (buf : List ℕ) (p : ℕ) (v : Value) (rest : List ℕ) : Type 0 where
    size : ℕ
    reads : parse decodable f buf (pos p) ≡ parsed v (pos size)
    then_rest : At buf (p + size) rest

  record ReadsAll (f : ℕ) (buf : List ℕ) (p n : ℕ) (vs : Values) (rest : List ℕ) : Type 0 where
    end : ℕ
    reads : items (λ c. parse decodable f buf c) n (pos p) ≡ filled vs (pos end)
    after : p ≤ end
    then_rest : At buf end rest

  used : (p n : ℕ) → pos (p + n) -ℤ pos p ≡ pos n
  used p n = pos_sub p n

  -- A reply that is its header line alone.
  Reads-line :
      (f : ℕ) (buf : List ℕ) (p k : ℕ) (line rest : List ℕ) (v : Value)
      → NotCr k
      → All NotCr line
      → At buf p (k ∷ line ++ crlf rest)
      → parse_kind decodable
          (λ c. parse decodable f buf c)
          buf
          (pos p)
          (k ∷ [])
          line
          (pos (p + suc (length line) + 2))
        ≡ parsed v (pos (p + suc (length line) + 2) -ℤ pos p)
      → Reads (suc f) buf p v rest
  Reads-line f buf p k line rest v hk hl at e =
      let size_eq : p + suc (length line) + 2 ≡ p + (suc (length line) + 2) = omega arith in
      record {
        size = suc (length line) + 2;
        reads =
            parse_header decodable f buf p k line rest hk hl at
            ∙ e
            ∙ ap (λ n. parsed v (pos n -ℤ pos p)) size_eq
            ∙ ap (parsed v) (used p (suc (length line) + 2));
        then_rest = rw (← size_eq) (At-header buf p k line rest at);
      }

  parse_bulk_lem :
      (buf : List ℕ) (p h : ℕ) (text rest : List ℕ)
      → At buf h (text ++ crlf rest)
      → parse_bulk buf (pos p) (pos h) (some (pos (length text)))
        ≡ parsed (Value.bytes text) (pos (h + length text + 2) -ℤ pos p)
  parse_bulk_lem buf p h text rest at =
      let fits : ltb (length buf) (h + length text + 2) ≡ false =
        ltb-false _ _ (omega (arith, at.size_eq, length-append text (crlf rest))) in
      rw fits (
        ap (λ d. parsed (Value.bytes d) (pos (h + length text + 2) -ℤ pos p))
          (slice-At buf h text (crlf rest) at))

  Reads-bulk :
      (f : ℕ) (buf : List ℕ) (p : ℕ) (text rest : List ℕ)
      → At buf p (render (bulk text) rest)
      → Reads (suc f) buf p (Value.bytes text) rest
  unfolding render
  Reads-bulk f buf p text rest at =
      let line = show (length text) in
      let h = p + suc (length line) + 2 in
      let body = At-header buf p b'$' line (text ++ crlf rest) at in
      let size_eq : h + length text + 2 ≡ p + (suc (length line) + 2 + length text + 2) =
        omega arith in
      record {
        size = suc (length line) + 2 + length text + 2;
        reads =
            parse_header decodable f buf p b'$' line (text ++ crlf rest) (omega arith)
              (NotCr-digits line (show-IsDigit _)) at
            ∙ ap (parse_bulk buf (pos p) (pos h)) (int_of-show (length text))
            ∙ parse_bulk_lem buf p h text rest body
            ∙ ap (λ n. parsed (Value.bytes text) (pos n -ℤ pos p)) size_eq
            ∙ ap (parsed (Value.bytes text)) (used p (suc (length line) + 2 + length text + 2));
        then_rest = rw (← size_eq) (
            At-append buf (h + length text) (crlf []) rest (At-append buf h text (crlf rest) body));
      }

  Reads-array :
      (f : ℕ) (buf : List ℕ) (p n : ℕ) (vs : Values) (tail rest : List ℕ)
      → At buf p (b'*' ∷ show n ++ crlf tail)
      → ReadsAll f buf (p + suc (length (show n)) + 2) n vs rest
      → Reads (suc f) buf p (Value.array vs) rest
  Reads-array f buf p n vs tail rest at all_read =
      let line = show n in
      let h = p + suc (length line) + 2 in
      let rec = λ (c : ℤ). parse decodable f buf c in
      let size_eq : all_read.end ≡ p + (all_read.end - p) = omega (arith, all_read.after) in
      record {
        size = all_read.end - p;
        reads =
            parse_header decodable f buf p b'*' line tail (omega arith)
              (NotCr-digits line (show-IsDigit _)) at
            ∙ ap (parse_array rec (pos p) (pos h)) (int_of-show n)
            ∙ ap (close_array (pos p)) all_read.reads
            ∙ ap (λ e. parsed (Value.array vs) (pos e -ℤ pos p)) size_eq
            ∙ ap (parsed (Value.array vs)) (used p (all_read.end - p));
        then_rest = rw (← size_eq) all_read.then_rest;
      }

  ReadsAll-cons :
      (f : ℕ) (buf : List ℕ) (p n : ℕ) (v : Value) (vs : Values) (mid rest : List ℕ)
      (one : Reads f buf p v mid)
      → ReadsAll f buf (p + one.size) n vs rest
      → ReadsAll f buf p (suc n) (Values.cons v vs) rest
  unfolding items
  ReadsAll-cons f buf p n v vs mid rest one others = record {
    end = others.end;
    reads =
        ap (with_item (λ c. items (λ c. parse decodable f buf c) n c) (pos p)) one.reads
        ∙ ap (filled_from v) others.reads;
    after = omega (arith, others.after);
    then_rest = others.then_rest;
  }

  mutual
    unfolding render items

    parse-Reads :
        (r : Reply) (f : ℕ) (buf : List ℕ) (p : ℕ) (rest : List ℕ)
        → IsWellFormed decodable r
        → depth r < f
        → At buf p (render r rest)
        → Reads f buf p (meaning r) rest
    parse-Reads (simple line) (suc f) buf p rest w d at =
        Reads-line f buf p b'+' line rest _ (omega arith) w at refl
    parse-Reads (failure line) (suc f) buf p rest w d at =
        Reads-line f buf p b'-' line rest _ (omega arith) w.0 at (rw w.1)
    parse-Reads (number n) (suc f) buf p rest w d at =
        Reads-line f buf p b':' (show_int n) rest _ (omega arith) (NotCr-show_int n) at (
          ap (λ o. parse_int o (pos (p + suc (length (show_int n)) + 2) -ℤ pos p))
            (int_of-show_int n))
    parse-Reads null_bulk (suc f) buf p rest w d at =
        Reads-line f buf p b'$' (b'-' ∷ b'1' ∷ []) rest Value.null (omega arith) (omega arith) at
          (ap (parse_bulk buf (pos p) (pos (p + 3 + 2))) int_of-minus_one)
    parse-Reads null_array (suc f) buf p rest w d at =
        Reads-line f buf p b'*' (b'-' ∷ b'1' ∷ []) rest Value.null (omega arith) (omega arith) at (
          ap (parse_array (λ c. parse decodable f buf c) (pos p) (pos (p + 3 + 2)))
            int_of-minus_one)
    parse-Reads (bulk text) (suc f) buf p rest w d at = Reads-bulk f buf p text rest at
    parse-Reads (replies rs) (suc f) buf p rest w d at =
        Reads-array f buf p (count rs) (meanings rs) (render_all rs rest) rest at (
          items_read rs f buf _ rest w (omega arith)
            (At-header buf p b'*' (show (count rs)) (render_all rs rest) at))
    parse-Reads r zero buf p rest w d at = elim d [ ]

    items_read :
        (rs : Replies) (f : ℕ) (buf : List ℕ) (p : ℕ) (rest : List ℕ)
        → AreWellFormed decodable rs
        → depth_all rs < f
        → At buf p (render_all rs rest)
        → ReadsAll f buf p (count rs) (meanings rs) rest
    items_read nil f buf p rest w d at = record {
      end = p;
      reads = refl;
      after = omega arith;
      then_rest = at;
    }
    items_read (cons r rs) f buf p rest w d at =
        let one = parse-Reads r f buf p (render_all rs rest) w.0 (omega arith) at in
        ReadsAll-cons f buf p (count rs) (meaning r) (meanings rs) (render_all rs rest) rest one
          (items_read rs f buf (p + one.size) rest w.1 (omega arith) one.then_rest)

  -- With a well-formed reply at the front of the buffer, whatever follows, one `gets` returns its
  -- value and leaves in the buffer exactly what follows.
  pub gets-render :
      (f : ℕ) (r : Reply) (rest : List ℕ)
      → IsWellFormed decodable r
      → depth r < f
      → gets decodable f (render r rest) ≡ (Got.value (meaning r), rest)
  unfolding gets
  gets-render f r rest w d =
      let buf = render r rest in
      let one = parse-Reads r f buf 0 rest w d (At-start buf) in
      let start : 0 + one.size ≡ one.size = omega arith in
      ap (got buf) one.reads
      ∙ ap (λ n. (Got.value (meaning r), drop n buf))
          (index-At buf one.size rest (rw start at one.then_rest))
      ∙ ap (λ n. (Got.value (meaning r), drop n buf)) (sym start)
      ∙ ap (λ b. (Got.value (meaning r), b)) one.then_rest.rest_eq
