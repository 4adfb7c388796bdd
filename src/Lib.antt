-- ===== src/Lib.antt =====
-- GRACE-Mem: a graph memory for conversations. Ingestion turns dialogue into entities and
-- relationships with provenance; retrieval searches them, spreads activation over the graph, reranks
-- what it found and builds an evidence block; an agent filter then lets a model search the raw turns
-- and decide which evidence the answering model sees.
--
-- What stands where:
--   Common        numbers, lists, sets, dictionaries, stable sorting and the string methods that the
--                 source calls; a text is a list of code points.
--   Effects       code that keeps state and may raise: S -> Option A x S. What was written before an
--                 exception stays written.
--   Corpus        grace_mem/agent_filter/retrieval/corpus.py: Turn, Corpus.__init__ (build), resolve,
--                 normalize_sids, the window of read_window; Load has load_corpus on the rows that
--                 pandas reads. Index, Resolve, Normalize, Halts, Spin and Window follow them.
--   Protocol      grace_mem/agent_filter/runtime/protocol.py: response_command_candidates and
--                 parse_response; Sids has SID_RE and extract_final_sids.
--   Session       grace_mem/agent_filter/runtime/session.py: AgentSession (tell, run, force_final,
--                 _ask, _record); Budget, Keeps, Evidence and Outcome follow its loop.
--   Context       grace_mem/agent_filter/evidence/context.py and Corpus.display_entry.
--   Adjudicate    grace_mem/agent_filter/evidence/adjudication.py, with its child Fair.
--   Finalize      grace_mem/agent_filter/evidence/finalization.py and applies_to of config.py: select,
--                 _adjudicate, finalize; Select, Recover and Net follow each.
--   Harness       grace_mem/agent_filter/harness.py: refine_context, the composition of the above.
--   Provenance    grace_mem/data_model/provenance.py: prov_to_events and merge_prov.
--   Relations     grace_mem/ingestion/managers/relationship_manager.py: upsert_from_extraction on its
--                 caches; Twice runs it again on the same input.
--   Narrowing     grace_mem/retrieval/evidence/narrowing.py: NarrowingModule.narrow.
--   Evidence      grace_mem/retrieval/evidence: Cut is rank_and_cut of ranking.py, Raw the index and the
--                 lookups of source.py.
--   Reranker      grace_mem/retrieval/ranking/reranker.py: _score_batch, rerank, rank_pairs.
--   Ranking       grace_mem/retrieval/ranking/filter.py: compute_subgraph_intersection and
--                 rerank_filter; build_id_to_meta_maps of grace_mem/services/cache/cache.py.
--   Spreading     grace_mem/retrieval/candidates/graph_expansion.py: SpreadingActivationEngine.run.
--   Temporal      grace_mem/temporal/classifier.py, types.py and resolver.py: Calendar is Python's date and
--                 datetime arithmetic; Classifier is classify_temporal_matches; Days, Spans and Results
--                 are the resolvers' branches, Resolver is resolve_match; Sound, Weekdays, Neighbours,
--                 Months, Adjacent and Years follow them. Normalizer is
--                 rewrite_temporal_text of normalizer.py and Augment the tags and hints of the same file;
--                 Splice, Rewrite and Substituted follow the replacements.
--   SparseIndex   grace_mem/services/sparse_index/bm25.py: EntitiesBM25, over rank_bm25 as a parameter.
--   Tests         the definitions on concrete inputs.
--
-- The rewriting of a text (Normalizer) takes the matches of the Classifier and the results of the
-- Resolver, which classifies the anchors of an expression again.
--
-- How the parts interact: refine_context takes the seed sids from the evidence block (Context), runs a
-- session whose replies are read by Protocol and whose tools are a parameter, resolves the FINAL
-- against the Corpus, and hands the selection to Finalize, which may ask the auditor (Adjudicate)
-- before it renders the new block (Context). The rerank filter (Ranking) uses the reranker's order.
--
-- Parameters: the language model, its tools, the auditor, the vector and graph stores, the float
-- arithmetic, the rows that pandas reads, `str.lower`, `str.upper`, `_slugify`, the digits of `\d`,
-- and the parsers of a command and of a time expression, which the source writes as regular
-- expressions. Hypotheses on them stand in the theorems that use them.
--
-- Restrictions: the limits max_calls and max_sids of the configuration are not negative, though the
-- int() of from_params lets them be; rescale_c is not 1, where the rescaling of a weight divides by
-- zero; a turn index is not negative; the constructor of rank_bm25 returns, also on a corpus without
-- words; of the exceptions of the local reranker only the out-of-memory error is in the model.
--
-- Bounds and fuel: the loop of a session runs on its budget of calls, as in the source. `resolve`
-- recurses with no bound in the source; it runs here on the room that the stack has for nested calls,
-- and without room it is none, as the RecursionError is. The batches of the reranker run on as many
-- rounds as there are documents, and as many more as the batch size: a batch that fits takes a
-- document away, one that does not fit halves the size or takes a document away. The spreading runs
-- on as many rounds as there are seeds and arcs, since a round takes a node from the queue and each
-- arc puts at most one there, once. Theorems state that these suffice.
--
-- The resolvers of time expressions call each other on an anchor, against the room of Python's stack
-- too, and are none without it.
--
-- Not modelled: grep, the command grammar, AgentTools, the rest of ingestion, the search stages
-- before the rerank filter, the evidence builder, query_time_parser.py, the display texts of a
-- resolved time, the stores and their clients, prompts, log lines and files, the experiments, scripts
-- and tests of the repository.
pub mod Adjudicate
pub mod Common
pub mod Context
pub mod Corpus
pub mod Effects
pub mod Evidence
pub mod Finalize
pub mod Harness
pub mod Narrowing
pub mod Protocol
pub mod Provenance
pub mod Ranking
pub mod Relations
pub mod Reranker
pub mod Session
pub mod SparseIndex
pub mod Spreading
pub mod Temporal
pub mod Tests
