-- ===== src/Transaction/Prepared/Create.antt =====
-- What `Create` prepares is fit for `Serialize`.
use utreexo_core_rpc.Common.{
  ℕ, suc, ◌+◌, ◌-◌, ◌^◌, ◌≤◌, ◌<◌, ◌≡◌, refl, sym, ap, ◌∙◌, subst, arith, Bool, true, false, not,
  ◌||◌, ◌==◌, ltb, leb, Bool-cases, inl, inr, if◌then◌else◌, Option, none, some, List, [], ◌∷◌,
  ◌++◌, All, length, length-append,
}
use utreexo_core_rpc.Result.{ok, refuse-eq-ok, >>=-eq-ok, ok-injective}
use utreexo_core_rpc.Wire.Bytes.{Bytes, little_endian, length-little_endian, compact_size_bytes}
use utreexo_core_rpc.Leaf.{CompactLeafData, is_other}
use utreexo_core_rpc.Udata.{Proof, script_type_byte, is_empty}
use utreexo_core_rpc.Transaction.{max_inputs, max_hashes, max_script_bytes, max_tx_payload}
use utreexo_core_rpc.Transaction.Scan.Encoding.{
  Tx, TxIn, sized, length-sized, encode, prevouts, IsTransaction,
}
use utreexo_core_rpc.Transaction.Scan.Identity.{transaction_of}
use utreexo_core_rpc.Transaction.Unique.{IsUnique, IsUnique-unique_positions}
use utreexo_core_rpc.Transaction.Positions.Siblings.{IsSibling}
use utreexo_core_rpc.Transaction.Positions.Places.{wire_positions-IsUnique}
use utreexo_core_rpc.Transaction.Positions.Proved.{native_proof_positions-Proved}
use utreexo_core_rpc.Transaction.Positions.{native_proof_positions, rows_of, wire_position}
use utreexo_core_rpc.Transaction.Prepared.{
  PreparedTransactionProof, leaf_bytes, count_leaf, count_leaves, targets_bytes, wire_positions,
  is_missing, create,
}
use utreexo_core_rpc.Transaction.Prepared.Written.{leaf_part, leaf_parts, HasRoom}
use utreexo_core_rpc.Transaction.Prepared.State.{FitsMessage, count_some, IsPrepared}

length-leaf_part :
    (leaf : CompactLeafData) (ending : Bytes)
    → (if is_other leaf.script_type then sized leaf.script else []) ≡ ending
    → length (leaf_part leaf) ≡ 13 + length ending
length-leaf_part leaf ending e = rw e (
    omega (
      arith,
      length-append (little_endian 4 leaf.header_code)
          (little_endian 8 leaf.amount ++ (script_type_byte leaf.script_type ∷ ending)),
      length-append (little_endian 8 leaf.amount) (script_type_byte leaf.script_type ∷ ending),
      length-little_endian 4 leaf.header_code,
      length-little_endian 8 leaf.amount,
    ))

leaf_bytes-FitsMessage :
    (leaf : CompactLeafData) (size : ℕ)
    → leaf_bytes leaf ≡ ok size
    → FitsMessage (some leaf) × (size ≡ length (leaf_part leaf))
unfolding leaf_bytes
leaf_bytes-FitsMessage leaf size e =
    elim (Bool-cases (ltb (2 ^ 31 - 1) leaf.header_code || ltb (2 ^ 63 - 1) leaf.amount)) [
      | inl y ↦ let wrong = rw y at e in cc
      | inr n ↦ elim (Bool-cases (is_other leaf.script_type)) [
        | inl y ↦ elim (Bool-cases (ltb max_script_bytes (length leaf.script))) [
          | inl long ↦ let wrong = rw (n, y, long) at e in cc
          | inr short ↦
              let same : ok (13 + compact_size_bytes (length leaf.script) + length leaf.script)
                  ≡ ok size =
                rw (n, y, short) at e in
              let ending : (if is_other leaf.script_type then sized leaf.script else [])
                  ≡ sized leaf.script =
                rw y refl in
              (
                (code n, amount n, rw y refl, ground arith),
                sym (ok-injective same)
                    ∙ omega (
                      arith,
                      length-sized leaf.script,
                      length-leaf_part leaf (sized leaf.script) ending,
                    ),
              )
        ]
        | inr standard ↦ elim (Bool-cases (is_empty leaf.script)) [
          | inl none_there ↦
              let same : ok 13 ≡ ok size = rw (n, standard, none_there) at e in
              let ending : (if is_other leaf.script_type then sized leaf.script else []) ≡ [] =
                rw standard refl in
              (
                (
                  code n,
                  amount n,
                  rw (standard, none_there) refl,
                  empty-short leaf.script none_there,
                ),
                sym (ok-injective same) ∙ omega (arith, length-leaf_part leaf [] ending),
              )
          | inr there ↦ let wrong = rw (n, standard, there) at e in cc
        ]
      ]
    ]
  where
    code :
        (ltb (2 ^ 31 - 1) leaf.header_code || ltb (2 ^ 63 - 1) leaf.amount) ≡ false
        → leaf.header_code < 2 ^ 31
    code h = ground arith

    amount :
        (ltb (2 ^ 31 - 1) leaf.header_code || ltb (2 ^ 63 - 1) leaf.amount) ≡ false
        → leaf.amount < 2 ^ 63
    amount h = ground arith

    empty-short : (s : Bytes) → is_empty s ≡ true → length s ≤ max_script_bytes
    empty-short [] h = omega arith
    empty-short (b ∷ bs) h = cc

-- What the loop of `Create` has checked and added up.
record IsCounted (inputs : List TxIn) (leaves : List (Option CompactLeafData))
    (confirmed base confirmed' base' : ℕ) : Type 0 where
  room : All HasRoom inputs
  fits : All FitsMessage leaves
  counted : confirmed' ≡ confirmed + count_some leaves
  measured : base' ≡ base + length (leaf_parts leaves)

count_leaves-IsCounted :
    (inputs : List TxIn) (leaves : List (Option CompactLeafData))
    (confirmed base confirmed' base' : ℕ)
    → length inputs ≡ length leaves
    → count_leaves (prevouts inputs) leaves confirmed base ≡ ok (confirmed', base')
    → IsCounted inputs leaves confirmed base confirmed' base'
unfolding count_leaves count_leaf
count_leaves-IsCounted [] [] confirmed base confirmed' base' n e =
    let same = ok-injective e in
    let c : confirmed ≡ confirmed' = ap (λ x. x.0) same in
    let b : base ≡ base' = ap (λ x. x.1) same in
    record { room = tt; fits = tt; counted = omega arith; measured = omega arith }
count_leaves-IsCounted [] (leaf ∷ leaves) confirmed base confirmed' base' n e = absurd (omega arith)
count_leaves-IsCounted (input ∷ inputs) [] confirmed base confirmed' base' n e =
    absurd (omega arith)
count_leaves-IsCounted (input ∷ inputs) (none ∷ leaves) confirmed base confirmed' base' n e =
    let (place, e₁) = refuse-eq-ok (ltb (2 ^ 31 - 1) input.prevout.index) _ _ _ e in
    let later =
      count_leaves-IsCounted inputs leaves confirmed base confirmed' base' (omega arith) e₁ in
    record {
      room = (ground arith, later.room);
      fits = (tt, later.fits);
      counted = later.counted;
      measured = later.measured;
    }
count_leaves-IsCounted (input ∷ inputs) (some leaf ∷ leaves) confirmed base confirmed' base' n e =
    let (place, e₁) = refuse-eq-ok (ltb (2 ^ 31 - 1) input.prevout.index) _ _ _ e in
    let ((c, b), counts, e₂) = >>=-eq-ok (count_leaf (some leaf) confirmed base) _ _ e₁ in
    let (size, measured, counts₁) = >>=-eq-ok (leaf_bytes leaf) _ _ counts in
    let (small, counts₂) = refuse-eq-ok (leb max_tx_payload (base + size)) _ _ _ counts₁ in
    let same = ok-injective counts₂ in
    let c_eq : confirmed + 1 ≡ c = ap (λ x. x.0) same in
    let b_eq : base + size ≡ b = ap (λ x. x.1) same in
    let (fit, size_eq) = leaf_bytes-FitsMessage leaf size measured in
    let later = count_leaves-IsCounted inputs leaves c b confirmed' base' (omega arith) e₂ in
    record {
      room = (ground arith, later.room);
      fits = (fit, later.fits);
      counted = omega (arith, later.counted);
      measured = omega (arith, later.measured, length-append (leaf_part leaf) (leaf_parts leaves));
    }

length-prevouts : (inputs : List TxIn) → length (prevouts inputs) ≡ length inputs
length-prevouts [] = refl
length-prevouts (input ∷ inputs) = ap suc (length-prevouts inputs)

length-wire_positions : (rows : ℕ) (ps : List ℕ) → length (wire_positions rows ps) ≡ length ps
length-wire_positions rows [] = refl
length-wire_positions rows (p ∷ ps) = ap suc (length-wire_positions rows ps)

wire_positions-fit : (rows : ℕ) (ps : List ℕ) → All (λ p. p < 2 ^ 64) (wire_positions rows ps)
unfolding wire_position
wire_positions-fit rows [] = tt
wire_positions-fit rows (p ∷ ps) = (omega arith, wire_positions-fit rows ps)

-- Where the proof of a preparation is on the wire: the targets are those that were given,
-- with none twice and none the padding, and the
-- positions are siblings of these or of their ancestors.
pub record IsPlaced (proof : Proof) (num_leaves : ℕ) (p : PreparedTransactionProof) : Type 0 where
  pub needed : List ℕ
  pub siblings : All (IsSibling (rows_of num_leaves) proof.targets) needed
  pub positions : p.proof_positions ≡ wire_positions (rows_of num_leaves) needed
  pub targets : p.proof.targets ≡ wire_positions (rows_of num_leaves) proof.targets
  pub apart : IsUnique p.proof.targets

-- What `Create` makes of a transaction of the wire, with hashes of 32 bytes, is a preparation for that
-- transaction: every confirmed input has its leaf and its target, the targets on the wire are distinct
-- and none of them is the padding, every proof position has its hash, each output number can be flagged
-- and each leaf can be sent, and the announced size is that of all parts but the hashes. The targets
-- are those of the given proof, and each proof position is the sibling of a target or of an ancestor
-- of one, both as positions on the wire.
pub create-IsPrepared :
    (sha256 : Bytes → Bytes) (tx : Tx) (proof : Proof) (leaves : List (Option CompactLeafData))
    (num_leaves : ℕ) (p : PreparedTransactionProof)
    → IsTransaction tx
    → All (λ hash. length hash ≡ 32) proof.hashes
    → create (transaction_of sha256 tx) proof leaves num_leaves ≡ ok p
    → IsPrepared sha256 tx p × IsPlaced proof num_leaves p
unfolding create
create-IsPrepared sha256 tx proof leaves num_leaves p valid sizes e =
    let t = transaction_of sha256 tx in
    let rows = rows_of num_leaves in
    let (counts, e₁) =
      refuse-eq-ok
        (is_missing t.inputs
          || is_missing t.bytes
          || not (length leaves == length t.inputs)
          || ltb max_inputs (length proof.targets)
          || ltb max_hashes (length proof.hashes))
        _ _ _ e in
    let (aligned, few) =
      checked (is_missing t.inputs) (is_missing t.bytes) (length leaves) (length t.inputs)
        (ltb max_inputs (length proof.targets)) (length proof.hashes) counts in
    let aligned' : length tx.inputs ≡ length leaves =
      sym (length-prevouts tx.inputs) ∙ sym aligned in
    let start = length (encode tx) + compact_size_bytes (length proof.targets) in
    let ((confirmed, base), counted, e₂) =
      >>=-eq-ok (count_leaves t.inputs leaves 0 start) _ _ e₁ in
    let loop = count_leaves-IsCounted tx.inputs leaves 0 start confirmed base aligned' counted in
    let (equal, e₃) = refuse-eq-ok (not (confirmed == length proof.targets)) _ _ _ e₂ in
    let (positions, found, e₄) = >>=-eq-ok (native_proof_positions proof num_leaves) _ _ e₃ in
    let proved = native_proof_positions-Proved proof num_leaves positions found in
    let targets = wire_positions rows proof.targets in
    let (small, e₅) = refuse-eq-ok (leb max_tx_payload (base + targets_bytes targets)) _ _ _ e₄ in
    let made : PreparedTransactionProof = record {
      transaction = t;
      proof = record proof { targets = targets };
      input_leaves = leaves;
      proof_positions = wire_positions rows positions;
      base_payload_bytes = base + targets_bytes targets;
    } in
    let apart =
      wire_positions-IsUnique rows proved.few proof.targets proved.inside proved.distinct in
    let n = length-wire_positions rows proof.targets in
    let m = length-wire_positions rows positions in
    let same_count : confirmed ≡ length proof.targets = ground arith in
    let below : base + targets_bytes targets < max_tx_payload = ground arith in
    let prepared : IsPrepared sha256 tx made = record {
      valid = valid;
      small = omega (arith, below, loop.measured);
      same = refl;
      aligned = aligned';
      indices = loop.room;
      leaves = loop.fits;
      confirmed = omega (arith, loop.counted);
      target_bounds = wire_positions-fit rows proof.targets;
      distinct = IsUnique-unique_positions targets apart;
      counted = omega (arith, proved.counted);
      hash_bound = few;
      hash_sizes = sizes;
      none_needed = λ z. omega (arith, proved.none_needed (omega arith));
      base = omega (arith, loop.measured, ap compact_size_bytes n);
    } in
    let placed : IsPlaced proof num_leaves made = record {
      needed = positions;
      siblings = proved.siblings;
      positions = refl;
      targets = refl;
      apart = apart;
    } in
    subst (λ q. IsPrepared sha256 tx q × IsPlaced proof num_leaves q) (ok-injective e₅)
      (prepared, placed)
  where
    checked :
        (a b : Bool) (m n : ℕ) (c : Bool) (h : ℕ)
        → (a || b || not (m == n) || c || ltb max_hashes h) ≡ false
        → (m ≡ n) × (h ≤ max_hashes)
    checked a b m n c h e = (ground arith, ground arith)
