-- ===== src/Server/Writer/Written.antt =====
-- server.go, `writeListFootprintsResponse`, `writeListTADsResponse` and `writeGetFootprintResponse`:
-- what is sent.
use ileap_go.Common.{
  ℕ, All, zero, suc, ◌+◌, ◌≤◌, true, List, [], ◌∷◌, ◌++◌, ◌≡◌, refl, sym, ap, ap₂, ◌∙◌, none, some,
  leb, arith, length, take_all, map, append_assoc, append-nil, Bytes, codes, join,
}
use ileap_go.Server.Http.{ErrorCode, internal_error}
use ileap_go.Server.Writer.{
  Writer, new_writer, status_or, Format, write, write_comma, items_loop, write_list_response,
  write_header, write_error_body,
}

abbrev sent : Bytes → Writer
sent data_bytes = record { status = some 200; written = data_bytes }

-- What stands before an item: a comma if there are items before it.
abbrev pub lead : ℕ → Bytes
lead zero = []
lead (suc i) = codes ","

-- The texts of items behind `i` others.
abbrev pub texts_from : ℕ → List Bytes → Bytes
texts_from i [] = []
texts_from i (t ∷ ts) = lead i ++ (t ++ texts_from (suc i) ts)

texts_from-suc :
    (i : ℕ) (t : Bytes) (ts : List Bytes)
    → texts_from (suc i) (t ∷ ts) ≡ codes "," ++ join (codes ",") (t ∷ ts)
unfolding join
texts_from-suc i t [] = ap (λ r. codes "," ++ r) (append-nil t)
texts_from-suc i t (u ∷ ts) = ap (λ r. codes "," ++ (t ++ r)) (texts_from-suc (suc i) u ts)

texts_from-join : (ts : List Bytes) → texts_from 0 ts ≡ join (codes ",") ts
unfolding join
texts_from-join [] = refl
texts_from-join (t ∷ []) = append-nil t
texts_from-join (t ∷ u ∷ ts) = ap (λ r. t ++ r) (texts_from-suc 0 u ts)

module _ {A : Type 0} (format : Format A) where
  -- The connection takes every write whole.
  abbrev pub IsOpen : Type 0
  IsOpen = (before data_bytes : Bytes) → length data_bytes ≤ format.taken before data_bytes

  module _ (opened : IsOpen) where
    write-open :
        (data_bytes : Bytes) (w : Writer)
        → write format data_bytes w
          ≡ (record { status = status_or 200 w.status; written = w.written ++ data_bytes }, true)
    unfolding write
    write-open data_bytes w =
        let fits = opened w.written data_bytes in
        let flag : leb (length data_bytes) (format.taken w.written data_bytes) ≡ true =
          ground (arith, fits) in
        rw (take_all _ data_bytes fits, flag) refl

    write-comma : (i : ℕ) (b : Bytes) → write_comma format i (sent b) ≡ (sent (b ++ lead i), true)
    write-comma zero b = rw (append-nil b) refl
    write-comma (suc i) b = write-open (codes ",") (sent b)

    items_loop-some :
        (i : ℕ) (x : A) (xs : List A) (b t : Bytes)
        → format.marshal x ≡ some t
        → items_loop format i (x ∷ xs) (sent b)
          ≡ items_loop format (suc i) xs (sent (b ++ (lead i ++ t)))
    unfolding items_loop
    items_loop-some i x xs b t e =
        rw
          (
            write-comma i b,
            e,
            write-open t (sent (b ++ lead i)),
            append_assoc b (lead i) t,
            items_loop,
          )
          refl

    items_loop-none :
        (i : ℕ) (x : A) (xs : List A) (b : Bytes)
        → format.marshal x ≡ none
        → items_loop format i (x ∷ xs) (sent b)
          ≡ sent (b ++ (lead i ++ format.encode_error internal_error (codes "internal error")))
    unfolding items_loop write_error_body
    items_loop-none i x xs b e =
        let text = format.encode_error internal_error (codes "internal error") in
        rw (write-comma i b, e, items_loop)
          (ap (λ w. w.0) (write-open text (sent (b ++ lead i)))
            ∙ ap sent (append_assoc b (lead i) text))

    items_loop-append :
        (i : ℕ) (text : A → Bytes) (xs ys : List A) (b : Bytes)
        → All (λ x. format.marshal x ≡ some (text x)) xs
        → items_loop format i (xs ++ ys) (sent b)
          ≡ items_loop format (i + length xs) ys (sent (b ++ texts_from i (map text xs)))
    items_loop-append i text [] ys b h =
        rw (append-nil b) (ap (λ n. items_loop format n ys (sent b)) (omega arith))
    items_loop-append i text (x ∷ xs) ys b (e, h) =
        items_loop-some i x (xs ++ ys) b (text x) e
        ∙ items_loop-append (suc i) text xs ys (b ++ (lead i ++ text x)) h
        ∙ ap₂ (λ n w. items_loop format n ys (sent w)) (omega arith)
            (append_assoc b (lead i ++ text x) _
              ∙ ap (λ r. b ++ r) (append_assoc (lead i) (text x) _))

    items_loop_nil : (i : ℕ) (b : Bytes) → items_loop format i [] (sent b) ≡ sent (b ++ codes "]}")
    unfolding items_loop
    items_loop_nil i b = ap (λ w. w.0) (write-open (codes "]}") (sent b))

    write_list_response_lem :
        (xs : List A)
        → write_list_response format xs new_writer
          ≡ items_loop format 0 xs (sent (codes "{\"data\":["))
    unfolding write_list_response
    write_list_response_lem xs =
        rw (write-open (codes "{\"data\":[") new_writer, write_list_response) refl

    -- A list is sent with the status 200, as one JSON object that holds the texts of its items with
    -- commas between them; every item has a text, and the connection takes every write.
    pub write_list_response-join :
        (text : A → Bytes) (xs : List A)
        → All (λ x. format.marshal x ≡ some (text x)) xs
        → write_list_response format xs new_writer ≡ record {
          status = some 200;
          written = codes "{\"data\":[" ++ (join (codes ",") (map text xs) ++ codes "]}");
        }
    write_list_response-join text xs h =
        write_list_response_lem xs
        ∙ ap (λ l. items_loop format 0 l (sent (codes "{\"data\":["))) (sym (append-nil xs))
        ∙ items_loop-append 0 text xs [] (codes "{\"data\":[") h
        ∙ items_loop_nil _ _
        ∙ ap sent (
            append_assoc (codes "{\"data\":[") (texts_from 0 (map text xs)) (codes "]}")
            ∙ ap (λ r. codes "{\"data\":[" ++ (r ++ codes "]}")) (texts_from-join (map text xs)))

    -- Where an item of a list has no text, the response keeps the status 200 and its body breaks
    -- off: behind the items before it, and a comma if there are any, stands the text of an internal
    -- error; the items before it have texts, and the connection takes every write.
    pub write_list_response-none :
        (text : A → Bytes) (xs ys : List A) (x : A)
        → All (λ y. format.marshal y ≡ some (text y)) xs
        → format.marshal x ≡ none
        → write_list_response format (xs ++ (x ∷ ys)) new_writer ≡ record {
          status = some 200;
          written =
              codes "{\"data\":["
              ++ (texts_from 0 (map text xs)
                  ++ (lead (length xs)
                      ++ format.encode_error internal_error (codes "internal error")));
        }
    write_list_response-none text xs ys x h e =
        let before = codes "{\"data\":[" ++ texts_from 0 (map text xs) in
        write_list_response_lem (xs ++ (x ∷ ys))
        ∙ items_loop-append 0 text xs (x ∷ ys) (codes "{\"data\":[") h
        ∙ ap (λ n. items_loop format n (x ∷ ys) (sent before)) (omega arith)
        ∙ items_loop-none (length xs) x ys before e
        ∙ ap sent (append_assoc (codes "{\"data\":[") (texts_from 0 (map text xs)) _)

    pub write_error_body_lem :
        (status : ℕ) (error : ErrorCode) (message : Bytes)
        → write_error_body format status error message new_writer
          ≡ record { status = some status; written = format.encode_error error message }
    unfolding write_error_body
    write_error_body_lem status error message =
        ap (λ w. w.0)
          (write-open (format.encode_error error message) (write_header status new_writer))
