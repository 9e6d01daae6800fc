-- ===== src/Lib.antt =====
-- The reference verifier of adversarial execution evidence with the runner of its test vectors,
-- packaging/run_vectors.py, and the artifact binding tools, tools/artifact-binding: the program's
-- definitions, one function per function or method, and theorems about them.
--
-- The verifier takes a statement, as it was decoded and as its bytes, and the pinned public keys. It
-- parses the bytes strictly, runs the checks of GATE 0 on the statement, those of GATE 1 on its
-- observation records, recomputes the result of its rows, and computes an evidence tier for each row.
-- Each check adds codes to an outcome; a statement without a code is accepted.
--
-- Base: helpers. Lists, texts as code points, integers over the native natural numbers.
-- Py: decoded JSON values with Python's operators on them (`get`, `==`, `in`, truth), a run of a check
-- (it raises, or is done with a value and the codes that it added), and encodings of text.
-- Platform: the functions that the verifier takes from hashlib, base64, json, datetime and re.
-- They are the fields of one record, an argument of what uses them.
-- Merkle: `merkle_root_hex`. Pae: `pae`. Ed25519: `_pt_add` to `ed25519_verify`, modulo the prime.
-- Ed25519.Sign: `_pt_compress`, `ed25519_public_key` and `ed25519_sign`.
-- Shapes: the field shapes, `HEX64_RE` to `_timestamp_ok`.
-- Scalars: `check_string_scalars` and its helpers. Jcs: `jcs_dumps` and the member order.
-- IJson: `parse_json_value`, `strict_payload_parse`, `_statement_strict_fault`, `strict_b64decode`.
-- Verifier: `ReferenceVerifier.verify`, `Outcome`. Its modules are the checks in the order of the code:
-- Statement, Vocabulary, Corpus, Rows, Coverage, Record and Records, Binding, Gate1 with Kinds,
-- Commitments, Recompute, Tiers. State holds `_VerifyState` and the constants.
-- Verifier/Accept: from an accepted statement back to the silence of each check, and what that implies.
-- SecondFault: `_CODE_REGISTRY` with its stages and families, and `second_fault_absence`, which recomputes
-- what a vector with a single fault must still satisfy.
-- Suite: the runner of the test vectors. Rail and Score: the report of an external rail, with its
-- missing and mistyped members, and the score of a vector. Process: the observation of the reference rail
-- and of an external one under both key policies. Evaluate: `evaluate_vector_detailed` with its branches for
-- each verdict. Family: `family_coherence_failures`. Tree and Closure: `manifest_index` to `manifest_kinds`,
-- and `manifest_closure`; the listing of the suite's directory is a parameter, a SystemExit is `none`. The
-- other modules prove what a score says.
-- Artifact: tools/artifact-binding. Verify: verify.py. Jcs: jcs.py. Lineage: `check_lineage` of regrade.py.
-- Tools: the functions that these take from hashlib, json, pathlib and cryptography, and the files below
-- the trial directory, as a function of their paths: there are no links. Paths: what the test of a declared
-- path says of its text.
-- Examples: test data, with a statement of one caught row and two records that is accepted.
--
-- State is passed on: a check takes the state and returns the next one. A `TypeError` that Python raises
-- on hashing a list or a dict, the `JcsError` that no caller catches, and in the artifact binding tools a
-- `ValueError` of a number or of a signature in hexadecimal, end the run with an exception.
-- A RecursionError of json.loads, the digit limit of int and the InvalidOperation that decimal raises on a
-- huge exponent are taken for the error of the parser that the code catches.
-- A missing key and a JSON null both read as `null`, as with `dict.get`; where the code asks for the key
-- itself, so does the model.
--
-- Bounds and fuel: `split` doubles its candidate from 1 and stops at the number of leaves, `node` halves
-- a range of leaves; each gets the number of leaves as fuel. The loops over the bits of an exponent or a
-- scalar get 256 rounds, the loops over the bytes of a text its length. The parser's limits on size,
-- depth and integers are those of the code.
--
-- Not modelled: the scanner of the json module and the decoders it stands on, SHA-256 and SHA-512,
-- which are parameters; the start of a subprocess and the clock of its timeout, of which the end is a
-- parameter; the writing of reports; the walk over a trial
-- directory that builds a record; the generators of the vectors, which write test data; the gates on the
-- repository, which search its texts; the anchor stream and COSE vectors; the implementation in Go.
-- Neither is `derive_test_keys`. A message of a score or of a lineage problem is kept as a constructor with what it names.
pub mod Base
pub mod Py
pub mod Merkle
pub mod Pae
pub mod Ed25519
pub mod Scalars
pub mod Jcs
pub mod Platform
pub mod IJson
pub mod Shapes
pub mod Verifier
pub mod SecondFault
pub mod Suite
pub mod Artifact
pub mod Examples
