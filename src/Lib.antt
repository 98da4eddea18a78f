-- ===== src/Lib.antt =====
-- MoLink runs one large language model on several machines, each of which holds a range of the
-- model's layers. A head node takes the requests; a batch runs through the head's layers, then
-- through those of the servers behind it, and the last server sends the result back to the head.
-- The repository (MoLink-main) has two engines: molinkv1, for vLLM's v1 engine, and molink, the
-- older one, for vLLM's v0 engine.
--
-- Which file models which part:
-- - Topology.antt: NodeInfo and PipelineTopology (MoLink-main/molinkv1/utils.py), the pool of
--   nodes that the head keeps and the server list, next server, rank and size that are read from
--   it. Topology/Invariant.antt, Order.antt and Walk.antt hold the proofs.
-- - ParallelState.antt: the module-level state of MoLink-main/molinkv1/parallel_state.py as a
--   record, and the functions that it puts in the place of vLLM's. Proofs in
--   ParallelState/Ranges.antt, Stages.antt and Patches.antt.
-- - Platform.antt: what the v1 engine takes from vLLM, PyTorch, cloudpickle, msgspec and json,
--   as a record of abstract types and functions. The round trips of the serializers are a second
--   record, RoundTrips, which a theorem takes as a hypothesis where it needs it;
--   Tests/Platforms.antt has an instance.
-- - Worker.antt: the store for tensors that came by gRPC, and MolinkWorker.execute_model
--   (MoLink-main/molinkv1/worker.py). Proofs in Worker/Forward.antt.
-- - Delivery.antt: the queue between a node and its delivery process, TensorDeliveryManager and
--   the loop of TensorDeliveryProcess (MoLink-main/molinkv1/delivery.py). Proofs in
--   Delivery/Order.antt.
-- - Service.antt: the queues of a node, one for each virtual engine, and the handlers of
--   MolinkService (MoLink-main/molinkv1/service.py). Proofs in Service/Queues.antt.
-- - Stubs.antt and Executor.antt: MolinkExecutor (MoLink-main/molinkv1/executor.py): how the
--   head starts a batch and triggers the servers behind it, how a server runs its stage and routes
--   the result, and the handler ExecuteWorkerStep that calls it. Proofs in Executor/Start.antt,
--   Triggers.antt, Single.antt and Steps.antt.
-- - Pipeline.antt: the nodes together, as a function from addresses to nodes, and the events by
--   which they change: a head starts a batch, a delivery process sends one request, a node carries
--   out a trigger. Proofs in Pipeline/Transport.antt, Server.antt, Walk.antt and EndToEnd.antt.
-- - Scheduler.antt: MolinkScheduler of the v0 engine (MoLink-main/molink/core/scheduler.py).
--   Scheduler/Sweep.antt is the loop over the waiting or the swapped queue,
--   Scheduler/Prefills.antt is _schedule_prefills, Scheduler/Swapped.antt _schedule_swapped,
--   Scheduler/Running.antt _schedule_running with its preemption, Scheduler/Chunked.antt
--   _schedule_chunked_prefill, which puts the three together, and Scheduler/Release.antt the end
--   of a batch (MoLink-main/molink/engine/molink_engine.py). vLLM's scheduler, block manager and
--   budget are the record Vllm. Proofs in the modules below these. An exception that
--   _schedule_running catches, after which it returns None, is a raised assertion there.
-- - Engine.antt: the v0 engine (MoLink-main/molink/engine/molink_engine.py). Engine/Latency.antt
--   is the estimate of a batch's latency, with floats as the record Floats of abstract operations,
--   Engine/Batches.antt the number of micro batches, which it takes from the queues of
--   Scheduler.antt, Engine/Loop.antt run_engine_loop, and Engine/Flight.antt the batches that are
--   executed at the same time, which step_async schedules and frees, for chunked prefill, since
--   otherwise vLLM's own _schedule_default puts the batch together; vLLM answers whether a batch
--   has steps left, with which it is not freed. The loop knows the engine by the record
--   BatchNumbers, which Engine/Ready.antt fills for both ways to schedule. Proofs in the modules
--   below these.
-- - Layers.antt: the layers of a model on the nodes of the v0 engine: the serving layers
--   (MoLink-main/molink/engine/molink_engine.py), make_layers
--   (MoLink-main/molink/model_executor/models/utils.py) and the forward pass of LlamaModel
--   (MoLink-main/molink/model_executor/models/llama.py). Tensors and what a layer computes are the
--   record Model. Proofs in Layers/Stages.antt and Once.antt.
-- - AsyncScheduler.antt: the placeholders for tokens to come of MolinkAsyncScheduler
--   (MoLink-main/molinkv1/scheduler.py). Proofs in AsyncScheduler/Placeholders.antt.
-- - Ports.antt: find_free_port (MoLink-main/molinkv1/utils.py), where an abstract test says
--   whether a port can be bound. Proofs in Ports/Search.antt.
-- - PipelineManager.antt: the v0 engine's server list, read from a distributed hash table
--   (MoLink-main/molink/comm/pipeline_manager.py). The table and the decoding of JSON are the
--   record Dht. Proofs in PipelineManager/Published.antt.
-- - Registration.antt: how the nodes put themselves into that table
--   (MoLink-main/molink/comm/dht.py). A pass of refresh_registration is three events, since other
--   nodes' steps can come between its awaits. Proofs in Registration/Listing.antt, Round.antt,
--   Passes.antt and Settled.antt.
-- - StubList.antt: the stubs that the v0 executor keeps for the servers behind the head, and the
--   check before each batch (MoLink-main/molink/executor/mp_distributed_executor.py). Proofs in
--   StubList/Refresh.antt.
-- - Decoding.antt: what is read from the JSON that a node sends
--   (MoLink-main/molink/comm/utils.py). Decoding/Outputs.antt has decoding_sampler_outputs,
--   Decoding/Requests.antt and Records.antt have decoding_execute_model_req. What msgspec writes
--   is described in Decoding/Returned.antt and Sent.antt, with proofs there and in Received.antt.
-- - Swarm.antt: the nodes of the v0 engine and what they send. Swarm/CommService.antt has the
--   handlers of CommService (MoLink-main/molink/comm/comm_handler.py); Swarm/HeadServer.antt and
--   Swarm/Deliver.antt have executing_head_server, _driver_execute_model_async and the sending
--   process (MoLink-main/molink/executor/mp_distributed_executor.py); Swarm/Network.antt puts the
--   nodes together as a function from addresses. vLLM's requests and constructors, the worker and
--   the serializers are the record Codec, what is read back of them the record Laws. Proofs in
--   Swarm/Handlers.antt, Passing.antt, Start.antt, Walk.antt and EndToEnd.antt.
-- - Prelude.antt and Prelude/: lists, dictionaries in insertion order, signed numbers, stable
--   sorting, and exceptions as values.
-- - Tests.antt and Tests/: the theorems at concrete inputs, and runs of the model.
--
-- How the code's state and control flow appear. An object is a record and a method a function
-- from it to the new one. An exception is a value of Result, which names its class. What an
-- asyncio task or another process does later is an event of its own; a call that waits for an
-- entry of a queue is modelled at the moment when the entry is there. A failed request to
-- another node is logged by the code and has no effect on the sender, so it is a send that
-- changes nothing. Logging is left out. The gRPC channels themselves are left out.
--
-- Loops over lists are recursion on the list, and Delivery.Order.drain is the loop of the
-- delivery process on fuel: as many rounds as the queue has entries are enough.
-- Scheduler.Running.run_loop and make_room are on fuel too: each round takes a group from the
-- front of the queue, and each preemption one from its end, so as many rounds as the queue has
-- groups are enough, and one more for a preemption that takes the group itself. Ports.search has
-- one round for each port up to 65535.
--
-- Not modelled: the set-up of devices, channels, servers and threads, the HTTP entrypoints,
-- command line options, generated gRPC code, the tensor computations inside the layers of a
-- model, the model files other than that of LlamaModel, which split their layers the same way,
-- the network part of the DHT, and, of the older engine, the parts that are not named above.
mod Prelude
pub mod Topology
pub mod ParallelState
pub mod Platform
pub mod Worker
pub mod Delivery
pub mod Service
pub mod Stubs
pub mod Executor
pub mod Pipeline
pub mod Scheduler
pub mod Engine
pub mod Layers
pub mod AsyncScheduler
pub mod Ports
pub mod PipelineManager
pub mod Registration
pub mod StubList
pub mod Decoding
pub mod Swarm
mod Tests
