-- ===== src/Lib.antt =====
-- AI-HOW: the Python program of python/ai_how that runs an HPC and a cloud cluster of virtual machines
-- on one workstation. This library models the parts of it that decide: which VM may have which GPU, how
-- a VM is started and stopped, and what the record of a cluster says. All paths below are under
-- python/ai_how/src/ai_how/.
--
-- Parts of the program and how they interact. The command line (cli.py) and the cluster managers
-- (vm_management/hpc_manager.py, cloud_manager.py, system_manager.py) start and stop VMs through
-- `VMLifecycleManager` (vm_management/vm_lifecycle.py). That calls `LibvirtClient`
-- (vm_management/libvirt_client.py) for the hypervisor, `GPUResourceAllocator`
-- (resource_management/gpu_allocator.py) for the owners of the GPUs, and the state of the cluster
-- (state/models.py) for the GPU of a VM. The validators of shared GPUs read the configuration alone.
--
-- Which file models which part:
--   Models, Models/Vms       state/models.py: the records and the methods of `ClusterState`, one function
--                            per method with the time of `datetime.now()` as an argument
--   Gpu/Address              utils/gpu_utils.py: `GPUAddressParser`, its regular expression written out
--   Gpu/Allocator            resource_management/gpu_allocator.py: the state is the state file, each method
--                            a function on it; an argument says how a write of the file ends
--   Gpu/Sharing              resource_management/shared_gpu_validator.py (Scan) and
--                            validators/shared_gpu_validator.py (Typed)
--   Config, Config/Nodes     the configuration as records; utils/vm_utils.py (`has_gpu_passthrough`) and
--                            utils/vm_config_utils.py
--   Libvirt                  libvirt-python and the clock as an interface; the methods of `LibvirtClient`
--                            that the lifecycle manager calls; Libvirt/Toy is a machine for runs
--   Lifecycle, Lifecycle/Gpu vm_management/vm_lifecycle.py: its state is the client with the outside
--                            world, and the file of the GPU allocator
--   State/Json, State/Codec  the values of Python's json, and `to_dict` and `from_dict` of state/models.py; the
--                            formats of `datetime` and `Path` are a record of functions
--   State/Persistence        state/persistence.py: the state is the disk with the state file, the temporary
--                            file and the backups; an argument says which calls of the system succeed
--   State/Manager            state/manager.py: the cached state, the dirty flag and the disk
--   Rollback                 vm_management/hpc_manager.py: `RollbackManager`
--   System                   system_manager.py: each operation a function on the outside world, with the
--                            managers of the two clusters as an interface
--   Project                  utils/vm_utils.py: `get_project_root`, over a file system that is a record of
--                            functions
--   Hpc                      vm_management/hpc_manager.py: `HPCClusterManager`; Leases is a function of the
--                            configuration; Check, Start, Stop and Destroy are methods over records of what
--                            they call
--   Problem                  the exceptions that the managers of networks and volumes tell apart
--   Network                  vm_management/network_manager.py: Validate and Plan are functions of the
--                            configuration; Outside is what the rest calls, as a record; Dns, Lifecycle and
--                            Addresses are its methods; Toy is a host for runs
--   Volume                   vm_management/volume_manager.py, over a record of storage calls: Pools, Vms and
--                            Info are its methods; Toy and Shelf are hosts for runs
--   Common/Ensures, Keeps    what a method ensures of its result and of the state after it
--   Common                   lists, texts, dictionaries, methods that may raise
-- Each part has its theorems in child modules named for what they prove, and its runs in Tests.
--
-- Conventions. A text is the list of its code points; a dictionary is an association list in insertion
-- order. An operation that may raise returns a result together with the state, since Python keeps what
-- was changed before an exception. Exceptions are told apart as far as the code does. What the library
-- libvirt does is not known: it is a record of functions on an unknown host state. Laws of the clock stand in
-- Libvirt/Clock, of the calls on networks in Network/Lifecycle/View, of the storage calls in Volume/View: a
-- call does its work or raises and changes nothing that the view shows. A lookup raises for what is absent; where
-- it may also raise for another reason, which the code does not tell apart, a flag of the laws says so and
-- the theorems have that case. The system manager sees the
-- cluster managers the same way, with the laws in System/Laws.
--
-- Bounds and fuel. The wait loops have `timeout + 1` rounds: a round that does not end the wait sleeps for
-- two seconds (five in the system manager), so the deadline is reached first where the clock does not go
-- back. The other loops are over a list, the three attempts of `connect`, or the ten levels of the search
-- for the project root. Numbers of Python are unbounded, and the counts here are never negative.
--
-- Not modelled: log lines, texts of errors, the lock of the client and XML, which no decision rests on;
-- the manager of the cloud cluster; the commands by which the network
-- manager enables routing and service discovery; the PCIe checks, which read the host; and the command line, which calls the managers and prints.
pub mod Common
pub mod Config
pub mod Models
pub mod Gpu
pub mod Libvirt
pub mod Lifecycle
pub mod State
pub mod Rollback
pub mod System
pub mod Project
pub mod Problem
pub mod Network
pub mod Volume
pub mod Hpc
