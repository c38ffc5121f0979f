-- ===== src/Lib.antt =====
-- Models of the two state machines of the program, of the repair of histories, of the plugin breaker, of
-- the event bus, of the stall watchdog, of the agent's tools and of the task pipeline.
--
-- Parts. The canvas state machine keeps one picture: its size, its palette and its chain of layers,
-- with undo and redo. The conversation state machine decides whose turn it is and runs the flows of
-- commands, tools, forms and approvals that the runtime and the frontends drive. Both dispatch an
-- action by the phase through a table and normalise what an action raises into an ActionResult. What a
-- conversation said is kept as a history of messages, which is repaired before it is sent to a model.
-- Plugins that crash or hang are counted by a breaker, which requests their quarantine.
--
-- The pipeline derives data from files. Tasks are registered with the tables that they read and write;
-- the orchestrator links them into a graph, queues a row for each file and task, claims rows in
-- batches as far as dependencies, services and worker slots allow, and settles each row by what the
-- task's code returned. Event tasks are queued as runs when a channel of the bus fires. Every thread
-- uses one database under one lock, which prefers the interactive threads. Agents call tools through a
-- registry, of which the scope of their profile shows a part. A watchdog restarts a program that has stalled.
--
-- Files.
--   Common, Common/*      names passed on, tests, lists and integers over the native numbers.
--   Python, Python/*      dynamic values (truth, ==, isinstance int, int()), decimal numerals, dicts,
--                         sets and lists of texts, searches with a frontier.
--   Errors                state_machine/errors.py: the codes, ActionError and ActionResult, used by both.
--   Canvas/Chain          canvas/canvas.py: Canvas and its mutations. The controls dicts of the layers
--                         are objects in a heap, so that what is shared is shared in the model too.
--   Canvas/Restore        Canvas.to_dict and Canvas.from_dict.
--   Canvas/State          canvas/state.py: CanvasState, _snapshot, event, == on snapshots.
--   Canvas/Actions        canvas/action.py: execute of each action.
--   Canvas/Dispatch       canvas/action_map.py, CanvasAction.enact, CanvasState.enact.
--   Canvas/Wellformed, Sound, Edits, Invariant, Kept, RoundTrip, Same, Failure, Palette, Effects, Undo,
--   Alias, Order, Lead, Layers
--                         proofs, each named for its subject; Canvas/Tests runs the definitions.
--   Conversation/Types    state_machine/conversation_phases.py and the dataclasses of
--                         state_machine/conversation.py.
--   Conversation/Exec     methods that change the conversation and may raise.
--   Conversation/Core     ConversationState: turn order, priority, the stack of frames, events.
--   Conversation/Env      what the runtime registers: callables, form fields, the attachment parser.
--   Conversation/Callable _CallableAction: forms, validation, approval, the run of a handler.
--   Conversation/Actions  state_machine/action_map.py, is_legal, and the actions that replay nothing.
--   Conversation/Replay   SubmitFormText, SkipForm and AnswerApproval, which replay a suspended call.
--   Conversation/Enact    Action.enact and ConversationState.enact.
--   Conversation/Tracks, Turns, Flat, Depth, Approval
--                         proofs; Conversation/Tests runs the definitions.
--   History               heal_orphans of state_machine/serialization.py, which repairs a history before it
--                         goes to a provider; History/Healed and Fixed are proofs, History/Tests runs.
--   Health                PluginHealth of runtime/supervisor.py, the breaker of misbehaving plugins; proofs in
--                         Health/Requests, runs in Health/Tests.
--
--   Events                events/event_bus.py: subscriptions, emit and request.
--   Heartbeat             runtime/heartbeat.py: the probes and the launcher's monitor; proofs in
--                         Heartbeat/Alive, runs in Heartbeat/Tests.
--   Agent                 agent/tool_registry.py: registration, calls, visible tools.
--   Agent/Scope           runtime/agent_scope.py; proofs in Closure and Scoped, runs in Agent/Tests.
--   Pipeline/Rows, Queue, Runs, Files
--                         pipeline/database.py: the tables, and the methods on the queue of path tasks, on
--                         the runs of event tasks and on the registry of files.
--   Pipeline/Lock         _PriorityLock, with the threads that use it; proofs in Lock/Exclusion,
--                         Alert and Wakeups.
--   Pipeline/Queue/Steps  the methods on the queue as a step relation; proofs in Queue/Keys, Claim, Claimed
--                         and Fifo.
--   Pipeline/Tasks        pipeline/orchestrator.py: BaseTask, the graph, _deps_met, get_all_downstream;
--                         proofs in Tasks/Offers, Downstream, Graphs and Deps.
--   Pipeline/World        what the orchestrator acts on, and the outside world as a parameter.
--   Pipeline/Handlers     the handlers that queue, reset and delete work; proofs in Handlers/Touches and
--                         Deletion.
--   Pipeline/Execute      _execute; proofs in Execute/Settled and Batch.
--   Pipeline/EventRuns    _execute_event_run; proofs in EventRuns/RunCalm and RunSettled.
--   Pipeline/Orchestrator registration, the gates, dispatch turns and the wrappers of the workers; proofs
--                         in Orchestrator/Slots, Turns and Gates.
--   Pipeline/Lifecycle    start, stop and the cascade triggers; proofs in Lifecycle/Writers
--                         and Cascades.
--   Pipeline/Trigger      pipeline/event_trigger.py.
--   Pipeline/Fixtures, Tests, WorkTests, LockTests
--                         runs of the definitions.
--
-- Correspondence. A method is a function of the same name from the state to its result and the next
-- state; `<action>_execute` is `execute` of the class. A list that Python appends to is kept newest
-- first (history, undo_stack, redo_stack, frames, form_history, emitted, pending_attachments). Error
-- messages are constructors. The time (whole seconds in Health), minted ids and float arithmetic are parameters (World, Env). In
-- the pipeline a table is the list of its rows in rowid order, a method of the database is a function of that
-- list, a time is the number that the clock reads, and what a task's own code returned is an argument.
--
-- Depth. SubmitFormText, SkipForm and AnswerApproval call `enact` again for the action that their
-- frame suspended. `enact_at n` allows n - 1 such calls one inside another, and `enact` takes one more
-- than there are frames: a replay comes after its frame was popped. The loop of `heal_orphans` has one
-- round for each message that is kept. `get_all_downstream` makes one round more than there are tasks:
-- every round but the first visits a name that was not found before, and the search for the tools that a
-- scope needs as many as there are names in the scope and tools. `on_file_deleted` takes the recursion
-- limit that is left, and a call beyond it raises.
--
-- Not modelled. CanvasState.to_dict and from_dict and legal_canvas_actions; ConversationState.to_dict,
-- the rows of persisted conversations, the rendering of forms, the coercion of a form field (an interface:
-- what `validate` accepts, `coerce` converts), the messages and the `data` of an ActionResult; a content that is
-- neither nothing, a text nor a dict; in the canvas, a name or palette_id that is no text and controls that
-- are no dict, which the code converts by `str` and `dict`, and the id that from_dict also writes into the
-- layer of the snapshot that it reads (layers of sound states have one); exceptions of a form factory or a
-- validator and of a lookup of callables for an actor that is not registered; text outside ASCII in `lower`
-- and `strip`; a wait on the database's lock has no time limit and the order in which sleepers wake is open; an
-- mtime that cannot be read when a path is registered; in the
-- pipeline, the task-owned output tables behind two functions, what a task's code itself writes, the
-- printed graph, the file watcher and the tables of conversations and users; and the rest of the program, which the manifest lists.
pub mod Common
pub mod Python
pub mod Errors
pub mod Canvas
pub mod Conversation
pub mod History
pub mod Health
pub mod Events
pub mod Heartbeat
pub mod Agent
pub mod Pipeline
