-- ===== src/Lib.antt =====
-- Imprint keeps an operator's judgments as evidence-linked records, and hands selected ones to an
-- assistant. This library models the parts of src/imprint that decide what is accepted, what carries
-- authority, and what is delivered.
--
-- Parts, with the files of the repository that they model:
--   Base               lists, sorting, texts as code points, Boolean tests on numbers, integers
--   Time               `datetime.fromisoformat` as the program calls it
--   Retrieve           src/imprint/retrieve: models.py, tokenizer.py, engine.py and receipts.py
--     Eligible         the filter `eligible`; Eligible/Gates has one gate for each early return
--     Rank, Render     `_rank_key` and the two renderings
--     Budget           `_section_limits` and the loop that fills the sections
--     Engine           `_validate_config`, `_partitions` and `retrieve`
--     Receipts         the once-delivery latch, with calls that interleave
--   Authority          src/imprint/authority: challenge.py and the approvals of ledger.py
--     Challenge        `ChallengeRequest`, `validate_challenge_shape`, `build_challenge`
--     Chain            the signed chain of events: `verify_authority_chain`, `append_ledger_event`
--       Keys, Apply    the table of keys and the effect of each kind of lifecycle event
--       Verify         the loop over the rows; Heads, the pinned head and the checkpoint
--       History        the events behind a head
--     Ledger           `issue_challenge` and `verify_and_consume` on the tables of the ledger
--     Prepared         `prepare_mutation`, `load_prepared_mutation`, `mark_prepared_executed`
--   Ontology           src/imprint/urn.py and src/imprint/ontology
--     Json, Fault      Python's decoded JSON, and validators as values or exceptions
--     Urn, Require     the field checks of contracts.py
--     Provenance       `validate_provenance_contract`
--     World, Registry  the node types and relation signatures of world.py and contracts.py
--     Relation         `validate_relation_contract`
--     Judgment         judgment.py, the payloads of the judgment nodes
--     References       references.py, the references of a payload
--     Consent          `_validate_consent` and `consent_authorizes` of operator.py
--   Capture            src/imprint/capture/pipeline.py, durability.py and schema.py
--     Schema, Envelope `validate_capture_envelope`
--   Compiler           src/imprint/compiler/spool.py
--     Disk             the files, `_write_acknowledgement`, `acknowledgement_committed`, `_quarantine_receipt`
--     Spool            `write_envelope` and `compile_spools`
--     Prune            `prune_acknowledged_spools`
--   Domains            src/imprint/domains/selector.py
--   Health             src/imprint/health/report.py
--   Examples           concrete inputs and tests
--
-- How the parts meet: a capture spools the operator's words as an envelope before anything is derived, and
-- the compiler moves the spool into the store and prunes it; what is derived
-- passes the contracts of Ontology; a mutation of knowledge is prepared and approved through Authority;
-- Retrieve reads the records, filters them by their authority, fills the budget and delivers once.
--
-- State is passed: a handler of the ledger takes the tables and returns them, the receipts are the two
-- files of one key, and a capture carries the durability phase and the calls that it made. A refusal is
-- a value. Histories are step relations (Authority/Ledger/History, Authority/Prepared/Once) or schedules
-- of single file operations (Retrieve/Receipts). Recursion is
-- structural; only `finish` of the receipts counts the operations that a call may take.
--
-- Parameters, for what is not in the repository's code: the tables of `unicodedata` and of `casefold`
-- (AsciiFold, PathFold), RFC 8785, base 64, SHA-256 and Ed25519 (Crypto, Codec, External), the source of
-- the candidates, the lookups and the batch of the store, the detector, the spool, the proposer and
-- the failure logger of a capture, the paths, digests and clock of the compiler and how its publications
-- of files end (Host). What a theorem assumes of them
-- stands among its hypotheses: that a decoder gives back what was encoded, that a
-- signature verifies under the key that made it, that no two events in question have one digest.
--
-- Choices of the model: a text is its characters, with its UTF-8 bytes where a budget counts them; an
-- instant is a number of microseconds, and the format of a timestamp is that of Python 3.10; a
-- confidence that is only printed is its text; the budget of an engine is a natural number, since its
-- constructor has refused the others. A validator returns its
-- payload unchanged, so a model of one says what it refuses; several messages of one check may be one.
--
-- Not modelled: SQL storage and migrations (store, portability), the service and the key files of the
-- authority (service.py, keys.py, recovery.py, trust.py), file permissions, links and durable writes,
-- the heartbeat and the recovery of the compiler's lock, the building of an envelope, the detector,
-- the command line, hooks, installers and release tools.
pub mod Base
pub mod Time
pub mod Retrieve
pub mod Authority
pub mod Ontology
pub mod Capture
pub mod Compiler
pub mod Domains
pub mod Health
pub mod Examples
