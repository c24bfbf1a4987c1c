-- ===== src/Pipe/Copy.antt =====
-- What `copyBuffer` delivers and counts.
use tuna.Pipe.{
  ReadEnd, more, eof, read_error, SrcRead, Writer, CopyState, CopyResult, copied, write_error,
  short_write, read_failed, waiting, add_written, after_write, next_round, copy_buffer,
}
use tuna.Common.{
  ℕ, ◌+◌, ◌^◌, ◌≤◌, ◌<◌, ◌≡◌, refl, sym, ap, ◌∙◌, subst, Bool, true, false, not, Option, none, some,
  List, [], ◌∷◌, ◌++◌, append_assoc, append-nil, arith, ◌==◌, if_ind, length, take, drop,
  length-append, length-take, take-append-drop, Text, is_empty, is_empty→nil,
}

-- the bytes of the source, up to its end or its error
abbrev pub sent_by : List SrcRead → Text
sent_by [] = []
sent_by (r ∷ rs) = r.data_read ++ elim r.end [ more ↦ sent_by rs | eof ↦ [] | read_error ↦ [] ]

-- a write takes no more than it is given
abbrev pub IsWriter : Writer → Type 0
IsWriter write = (turn : ℕ) (b : Text) → (write turn b).0 ≤ length b

abbrev pub IsCounter : Option ℕ → Type 0
IsCounter none = Unit
IsCounter (some w) = w < 2 ^ 64

-- the write failed, or took too little
abbrev pub is_write_failure : CopyResult → Bool
is_write_failure write_error = true
is_write_failure short_write = true
is_write_failure copied = false
is_write_failure read_failed = false
is_write_failure waiting = false

-- what a copy of `sent` makes of a state: a part of it, from its start, is taken and counted, and all
-- of it unless a write fails
abbrev pub IsCopied : Text → CopyState → CopyState × CopyResult → Type 0
IsCopied sent s (t, result) =
    (out : Text) × (rest : Text) × (out ++ rest ≡ sent)
    × (t.taken ≡ s.taken ++ out)
    × (t.written ≡ add_written (length out) s.written)
    × (is_write_failure result ≡ false → rest ≡ [])

add_written-zero : (w : Option ℕ) → IsCounter w → w ≡ add_written 0 w
unfolding add_written
add_written-zero none h = refl
add_written-zero (some w) h = ground arith

add_written-add_written :
    (a b : ℕ) (w : Option ℕ) → add_written b (add_written a w) ≡ add_written (a + b) w
unfolding add_written
add_written-add_written a b none = refl
add_written-add_written a b (some w) = ap (λ (n : ℕ). some n) (omega arith)

IsCounter-add_written : (a : ℕ) (w : Option ℕ) → IsCounter (add_written a w)
unfolding add_written
IsCounter-add_written a none = tt
IsCounter-add_written a (some w) = omega arith

take-length : (b : Text) → take (length b) b ≡ b
take-length [] = refl
take-length (x ∷ b) = ap (λ (l : Text). x ∷ l) (take-length b)

-- nothing is sent any more
IsCopied-nil :
    (s : CopyState) (result : CopyResult) → IsCounter s.written → IsCopied [] s (s, result)
IsCopied-nil s result h =
    ([], [], refl, sym (append-nil s.taken), add_written-zero s.written h, λ _. refl)

-- the write of some data fails
IsCopied-failure :
    (s : CopyState) (result : CopyResult) (nw : ℕ) (b tail : Text)
    → nw ≤ length b
    → is_write_failure result ≡ true
    → IsCopied (b ++ tail) s (after_write nw b s, result)
unfolding after_write
IsCopied-failure s result nw b tail le failure = (
  take nw b,
  drop nw b ++ tail,
  sym (append_assoc (take nw b) (drop nw b) tail)
      ∙ ap (λ (l : Text). l ++ tail) (take-append-drop nw b),
  refl,
  rw (length-take nw b le) refl,
  λ h. absurd (ground (arith, failure, h)),
)

-- the data is written, and the copy goes on
IsCopied-cons :
    (s : CopyState) (b tail : Text) (r : CopyState × CopyResult)
    → IsCopied tail (after_write (length b) b s) r
    → IsCopied (b ++ tail) s r
unfolding after_write
IsCopied-cons s b tail (t, result) (out, rest, split, taken, written, all) = (
  b ++ out,
  rest,
  append_assoc b out rest ∙ ap (λ (l : Text). b ++ l) split,
  taken ∙ ap (λ (l : Text). s.taken ++ l ++ out) (take-length b) ∙ append_assoc s.taken b out,
  written
      ∙ add_written-add_written (length b) (length out) s.written
      ∙ ap (λ n. add_written n s.written) (sym (length-append b out)),
  all,
)

IsCopied-written :
    (s : CopyState) (b tail : Text) (r : CopyState × CopyResult) (nw : ℕ)
    → length b ≡ nw
    → IsCopied tail (after_write nw b s) r
    → IsCopied (b ++ tail) s r
IsCopied-written s b tail r nw e h =
    IsCopied-cons s b tail r (subst (λ n. IsCopied tail (after_write n b s) r) (sym e) h)

IsCounter-after_write : (nw : ℕ) (b : Text) (s : CopyState) → IsCounter (after_write nw b s).written
unfolding after_write
IsCounter-after_write nw b s = IsCounter-add_written nw s.written

-- the bytes that may follow a read
abbrev after_end : ReadEnd → List SrcRead → Text
after_end e rs = elim e [ more ↦ sent_by rs | eof ↦ [] | read_error ↦ [] ]

next_round-IsCopied :
    (e : ReadEnd) (rs : List SrcRead) (s : CopyState) (rest : CopyState × CopyResult)
    → IsCounter s.written
    → IsCopied (sent_by rs) s rest
    → IsCopied (after_end e rs) s (next_round e s rest)
unfolding next_round
next_round-IsCopied more rs s rest c h = h
next_round-IsCopied eof rs s rest c h = IsCopied-nil s copied c
next_round-IsCopied read_error rs s rest c h = IsCopied-nil s read_failed c

-- A copy from a source to a destination that takes no more than it is given: the destination takes
-- the bytes of the source in order, from the first on, and the counter, if there is one, grows by
-- exactly the number of bytes taken, up to its wrap-around at 2 ^ 64. Unless a write fails or takes too
-- little, all the bytes that were read are taken, those that came with the end or an error too.
pub copy_buffer-IsCopied :
    (rs : List SrcRead) (write : Writer) (s : CopyState)
    → IsWriter write
    → IsCounter s.written
    → IsCopied (sent_by rs) s (copy_buffer rs write s)
unfolding copy_buffer
copy_buffer-IsCopied [] write s w c = IsCopied-nil s waiting c
copy_buffer-IsCopied (r ∷ rs) write s w c =
    let (nw, ok) = write s.turn r.data_read in
    let s' = after_write nw r.data_read s in
    if_ind (IsCopied (sent_by (r ∷ rs)) s) (is_empty r.data_read)
      (λ nil. rw (is_empty→nil r.data_read nil) (
        next_round-IsCopied r.end rs s (copy_buffer rs write s) c
          (copy_buffer-IsCopied rs write s w c)))
      λ _.
        if_ind (IsCopied (sent_by (r ∷ rs)) s) (not ok)
          (λ _.
            IsCopied-failure s write_error nw r.data_read (after_end r.end rs)
              (w s.turn r.data_read) refl)
          λ _.
            if_ind (IsCopied (sent_by (r ∷ rs)) s) (not (length r.data_read == nw))
              (λ _.
                IsCopied-failure s short_write nw r.data_read (after_end r.end rs)
                  (w s.turn r.data_read) refl)
              λ same.
                IsCopied-written s r.data_read (after_end r.end rs)
                  (next_round r.end s' (copy_buffer rs write s')) nw (ground arith)
                  (next_round-IsCopied r.end rs s' (copy_buffer rs write s')
                    (IsCounter-after_write nw r.data_read s)
                    (copy_buffer-IsCopied rs write s' w (IsCounter-after_write nw r.data_read s)))
